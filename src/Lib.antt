-- ===== src/Lib.antt =====
-- gonuts, a mint and a wallet for Cashu ecash in Go: a model of the mint, of the wallet's choice and
-- making of proofs and of its database, and what makes them correct.
--
-- The program. A wallet holds proofs: secrets with an unblinded signature of the mint for an
-- amount. The mint (mint/mint.go) has three handlers that move value. MintTokens signs outputs for
-- a paid lightning invoice; Swap takes proofs and signs new outputs for them; MeltTokens takes
-- proofs and pays an invoice. All three keep their state in a database
-- (mint/storage/sqlite/sqlite.go), sign with the keys of a keyset (crypto/keyset.go) by the blind
-- signatures of crypto/bdhke.go, and check the spending conditions of well-known secrets
-- (cashu/nuts/nut10, nut11 and nut14). RestoreSignatures and ProofsStateCheck answer what is stored.
-- The data and the arithmetic are in cashu/cashu.go. A wallet (wallet/wallet.go) chooses which of its
-- proofs to send, splits amounts into outputs, makes proofs of the signatures it gets, and keeps them
-- in a database (wallet/storage/bolt.go).
--
-- The files, by what they model:
--   Prelude, with Tests, Lists, Int and Keys: Boolean tests, lists and sums over the native numbers,
--     `strconv.ParseInt`, and lists of distinct keys.
--   Errors: the errors of cashu/cashu.go, nut11 and nut14 with their codes, and `Result`, whose
--     `panic` is a run-time panic of Go or a loop without end.
--   Library: the record of everything that the repository calls and does not hold (secp256k1,
--     schnorr, sha256, hexadecimal text, JSON), and the laws of the curve.
--     CodecLaws has those of the encodings.
--   Cashu, with Amounts, Totals, Split and Duplicates: cashu/cashu.go.
--   Nuts: States (nut04, nut05, nut07), Secrets (nut10), Tags and Signatures (nut11), Conditions
--     (VerifyP2PKLockedProof of nut11, VerifyHTLCProof of nut14), and Dleq (nut12).
--   Crypto: HashToCurve and Bdhke (crypto/bdhke.go), Keyset (crypto/keyset.go).
--   Storage: the tables as lists of rows, with Proofs, MintQuotes, MeltQuotes, BlindSignatures and
--     Balance for the operations of mint/storage/sqlite/sqlite.go. Later is about tables that grow.
--   Mint: the record `Mint`, the record `World` of the answers of the lightning backend, the clock,
--     the randomness and the database engine, and the monad `Handler` of functions from the state to a
--     result and the state that is left, also on an error. Proofs is verifyProofs and
--     TransactionFees; Outputs is verifyBlindedMessages and signBlindedMessages; States is
--     publishProofsStateChanges; Swap, MintTokens (with RequestMintQuote and GetMintQuoteState) and
--     Melt (with RequestMeltQuote, GetMeltQuoteState, settleQuotesInternally and settleProofs) are
--     the handlers. In each, Check holds what happens before the first write. Restore is
--     RestoreSignatures and StateCheck is ProofsStateCheck, with Asked for the calls that it makes.
--     Ledger defines the ecash issued and redeemed, and DoubleSpend is about melts and swaps
--     together. Kept has the properties that every write keeps, and Steps the relation between the
--     states of the mint before and after a sequence of calls.
--   Wallet: the records of a mint and its keysets in the wallet and the fees, with Weights (sums
--     over lists that are rearranged), Select (selectProofsToSend), Funds (selectProofsForAmount
--     and the offline test of getProofsForAmount), Split (splitWalletTarget), Outputs
--     (createBlindedMessages, unblindSignature and constructProofs, with Writable for what their
--     proofs rest on), and Storage (wallet/storage/bolt.go: the buckets of proofs, pending proofs
--     and keysets as maps from keys to values, with Moves for the change of a mint's URL and Quotes
--     for the buckets of quotes and invoices and the migration from the one to the other).
--   Tests: a toy curve and small mints and wallets, runs on them, and an example of each theorem.
--
-- Machine integers and bounds. Amounts are `uint64`: sums wrap at 2 ^ 64 where the source adds
-- without a check, and are checked where it checks. AmountSplit runs 64 rounds, one for each bit.
-- HashToCurve runs 65536 rounds, the bound in the source. The loop of selectProofsToSend has a round
-- for each proof and one more, which is enough since a round takes a proof off the lists or ends the
-- loop. splitWalletTarget goes through 60 powers of two. Counters of outputs are `uint32`. Every other
-- loop is over a list.
--
-- What the code calls. `sort.Slice` and `slices.Sort` are arguments of the definitions that use them,
-- and the order in which Go ranges over a map is one as well. The transactions of bbolt take a
-- Boolean like the calls of the mint's database. JSON, hexadecimal text, the hash, the curve and the
-- derivation of the wallet's secrets are fields of a record or arguments.
--
-- The database. Each call takes a Boolean, `w.io` at the position of the call in the handler, which
-- is false when the engine fails for a reason of its own; a failed call changes nothing, since every
-- write is one statement or one transaction. Primary keys and unique columns are checked. Where
-- SaveProofs and AddPendingProofs return from an error of HashToCurve, the source leaves its
-- transaction open, without a Rollback; here the call has changed nothing.
--
-- Concurrency. Steps is about sequences of calls, each of which runs alone from its start to its end,
-- also those that fail half-way. The interleavings of two requests inside a call and the goroutine of
-- mint/invoicesub.go are not modelled.
--
-- Not modelled: the generation and the rotation of keysets; the tokens of cashu/cashu.go; the
-- wallet's derivation of keys (nut13), its calls of a mint (swapToSend, Receive, Mint, Melt and
-- the restoring of a wallet) and the blank outputs for the change of a melt, whose number comes
-- from a logarithm of floating-point numbers; the seed, the mnemonic and the counters of keysets
-- in wallet/storage/bolt.go, and its DeletePendingProofsByQuoteId, which deletes under a cursor,
-- where bbolt does not say what the cursor goes on to; the servers, the websocket, the lightning
-- backends, the commands and logging.
pub mod Prelude
pub mod Errors
pub mod Library
pub mod Cashu
pub mod Nuts
pub mod Crypto
pub mod Storage
pub mod Mint
pub mod Tests
pub mod Wallet
