-- ===== src/Wallet/Storage/Laws.antt =====
-- wallet/storage/bolt.go: saved proofs are there until they are deleted, once; and what a change of
-- a mint's URL leaves.
use mathlib.Core.Path.{subst}
use gonuts.Prelude.{◌≡◌, ◌≢◌, refl, ◌∙◌, String, true, Option, none, some, List, [], ◌∷◌, All}
use gonuts.Library.{Library, Bytes}
use gonuts.Cashu.{Proof}
use gonuts.Wallet.{
  Answer, endless, crash, fault, answer, >>=-eq-answer, answer_injective, must_have,
  must_have-eq-answer, not_json, proof_not_found,
}
use gonuts.Wallet.Storage.{
  Bolt, BoltLaws, BoltDb, update, put_proofs, with_proofs, save_proofs, without_proof, with_url,
  moved_found, delete_proof, update_keyset_mint_url, move_keysets, bucket_of,
}
use gonuts.Wallet.Storage.Moves.{HasDistinctEntries, AreMoved, move_keysets-AreMoved}

module _ {lib : Library} (bolt : Bolt lib) where
  open lib use {bytes_of}

  -- A transaction that is answered has made its change.
  update-answer :
      (change : BoltDb bolt → Answer (BoltDb bolt)) (db db' : BoltDb bolt)
      → update bolt true change db ≡ (answer tt, db')
      → change db ≡ answer db'
  unfolding update
  update-answer change db db' h = go (change db) refl
    where
      go : (r : Answer (BoltDb bolt)) → change db ≡ r → change db ≡ answer db'
      go endless e = cc (rw (e, update) at h)
      go crash e = cc (rw (e, update) at h)
      go (fault problem) e = cc (rw (e, update) at h)
      go (answer db'') e = cc (rw (e, update) at h)

  -- The keys of the proofs differ.
  abbrev pub HasDistinctKeys : List Proof → Type 0
  HasDistinctKeys [] = Unit
  HasDistinctKeys (p ∷ ps) =
      All (λ (q : Proof). bytes_of p.secret ≢ bytes_of q.secret) ps × HasDistinctKeys ps

  module _ (laws : BoltLaws bolt) where
    put_proofs-other :
        (k : Bytes) (ps : List Proof) (b b' : bolt.Bucket bolt.Json)
        → All (λ (q : Proof). k ≢ bytes_of q.secret) ps
        → put_proofs bolt ps b ≡ answer b'
        → bolt.get k b' ≡ bolt.get k b
    unfolding put_proofs
    put_proofs-other k [] b b' apart h = rw (← answer_injective h) refl
    put_proofs-other k (p ∷ ps) b b' apart h =
        let (text, e, h1) = >>=-eq-answer (must_have not_json (bolt.marshal_proof p)) _ h in
        put_proofs-other k ps (bolt.put (bytes_of p.secret) text b) b' apart.1 h1
        ∙ laws.get-put_other k (bytes_of p.secret) text b apart.0

    -- Under its secret stands the text of the proof.
    abbrev pub IsStored : BoltDb bolt → Proof → Type 0
    IsStored db p =
        (text : bolt.Json) × (bolt.marshal_proof p ≡ some text)
        × (bolt.get (bytes_of p.secret) db.proofs ≡ some text)

    put_proofs-IsStored :
        (ps : List Proof) (b b' : bolt.Bucket bolt.Json)
        → HasDistinctKeys ps
        → put_proofs bolt ps b ≡ answer b'
        → All
            (λ (p : Proof).
              (text : bolt.Json) × (bolt.marshal_proof p ≡ some text)
              × (bolt.get (bytes_of p.secret) b' ≡ some text))
            ps
    unfolding put_proofs
    put_proofs-IsStored [] b b' distinct h = tt
    put_proofs-IsStored (p ∷ ps) b b' distinct h =
        let (text, e, h1) = >>=-eq-answer (must_have not_json (bolt.marshal_proof p)) _ h in
        let next = bolt.put (bytes_of p.secret) text b in
        (
          (
            text,
            must_have-eq-answer not_json (bolt.marshal_proof p) e,
            put_proofs-other (bytes_of p.secret) ps next b' distinct.0 h1
                ∙ laws.get-put (bytes_of p.secret) text b,
          ),
          put_proofs-IsStored ps next b' distinct.1 h1,
        )

    with_proofs-IsStored :
        (ps : List Proof) (db db' : BoltDb bolt)
        → HasDistinctKeys ps
        → with_proofs bolt ps db ≡ answer db'
        → All (IsStored db') ps
    unfolding with_proofs
    with_proofs-IsStored ps db db' distinct h =
        let (bucket, e, same) = >>=-eq-answer (put_proofs bolt ps db.proofs) _ h in
        subst (λ (d : BoltDb bolt). All (IsStored d) ps) (answer_injective same)
          (put_proofs-IsStored ps db.proofs bucket distinct e)

    -- The proof can be deleted, and only once.
    abbrev pub DeletesOnce : BoltDb bolt → Proof → Type 0
    DeletesOnce db p =
        (db' : BoltDb bolt) × (delete_proof bolt true p.secret db ≡ (answer tt, db'))
        × (delete_proof bolt true p.secret db' ≡ (fault proof_not_found, db'))

    deletes_once :
        (db : BoltDb bolt) (p : Proof) (text : bolt.Json)
        → bolt.get (bytes_of p.secret) db.proofs ≡ some text
        → DeletesOnce db p
    unfolding delete_proof without_proof update
    deletes_once db p text h =
        let db' : BoltDb bolt = record db { proofs = bolt.delete (bytes_of p.secret) db.proofs } in
        (
          db',
          rw (h, without_proof, delete_proof, update) refl,
          rw (laws.get-delete (bytes_of p.secret) db.proofs, without_proof, delete_proof, update)
              refl,
        )

    delete_each_once :
        (db : BoltDb bolt) (ps : List Proof)
        → All (IsStored db) ps
        → All (λ (p : Proof). IsStored db p × DeletesOnce db p) ps
    delete_each_once db [] stored = tt
    delete_each_once db (p ∷ ps) (here, later) =
        ((here, deletes_once db p here.0 here.2), delete_each_once db ps later)

    -- After SaveProofs answers, for proofs whose secrets have different bytes, each proof stands under
    -- its secret, DeleteProof of it answers where its transaction works, and a second one answers that
    -- the proof is not found.
    pub save_proofs-delete_proof :
        (ps : List Proof) (db db' : BoltDb bolt)
        → HasDistinctKeys ps
        → save_proofs bolt true ps db ≡ (answer tt, db')
        → All (λ (p : Proof). IsStored db' p × DeletesOnce db' p) ps
    unfolding save_proofs
    save_proofs-delete_proof ps db db' distinct h =
        delete_each_once db' ps
          (with_proofs-IsStored ps db db' distinct (update-answer (with_proofs bolt ps) db db' h))

    -- The keysets of the bucket `old`, moved to the bucket of a URL.
    abbrev pub IsMoved : String → bolt.Bucket bolt.Json → BoltDb bolt → BoltDb bolt → Type 0
    IsMoved url old db db' =
        (bucket : bolt.Bucket bolt.Json) × (bolt.get (bytes_of url) db'.keysets ≡ some bucket)
        × AreMoved bolt url (bolt.entries old) (bucket_of bolt (bolt.get (bytes_of url) db.keysets))
            bucket

    moved_found-answer :
        (old_url new_url : String) (db db' : BoltDb bolt) (o : Option (bolt.Bucket bolt.Json))
        → moved_found bolt old_url new_url db o ≡ answer db'
        → (old : bolt.Bucket bolt.Json) × (bucket : bolt.Bucket bolt.Json) × (o ≡ some old)
          × (move_keysets bolt new_url
                (bolt.entries old)
                (bucket_of bolt (bolt.get (bytes_of new_url) db.keysets))
              ≡ answer bucket)
          × (record db {
            keysets =
                bolt.delete (bytes_of old_url) (bolt.put (bytes_of new_url) bucket db.keysets);
          }
              ≡ db')
    unfolding moved_found
    moved_found-answer old_url new_url db db' none h = cc
    moved_found-answer old_url new_url db db' (some old) h =
        let (bucket, moved, same) =
          >>=-eq-answer (move_keysets bolt new_url (bolt.entries old) _) _ h in
        (old, bucket, refl, moved, answer_injective same)

    moved_answer :
        (old_url new_url : String) (db db' : BoltDb bolt)
        → update_keyset_mint_url bolt true old_url new_url db ≡ (answer tt, db')
        → (old : bolt.Bucket bolt.Json) × (bucket : bolt.Bucket bolt.Json) × (bolt.get
              (bytes_of old_url)
              db.keysets
            ≡ some old)
          × (move_keysets bolt new_url
                (bolt.entries old)
                (bucket_of bolt (bolt.get (bytes_of new_url) db.keysets))
              ≡ answer bucket)
          × (record db {
            keysets =
                bolt.delete (bytes_of old_url) (bolt.put (bytes_of new_url) bucket db.keysets);
          }
              ≡ db')
    unfolding update_keyset_mint_url with_url
    moved_answer old_url new_url db db' h =
        moved_found-answer old_url new_url db db' (bolt.get (bytes_of old_url) db.keysets)
          (update-answer (with_url bolt old_url new_url) db db' h)

    -- Where UpdateKeysetMintURL answers, and a cursor gives each key of the bucket of the old URL once:
    -- nothing stands under the old URL any more. If the bytes of the new URL are not those of the old,
    -- each keyset of that bucket stands in the bucket of the new one, under its key, as it was except
    -- for its URL, which is the new one, and the other keys of that bucket are as they were.
    pub update_keyset_mint_url-IsMoved :
        (old_url new_url : String) (db db' : BoltDb bolt) (old : bolt.Bucket bolt.Json)
        → bolt.get (bytes_of old_url) db.keysets ≡ some old
        → HasDistinctEntries (bolt.entries old)
        → update_keyset_mint_url bolt true old_url new_url db ≡ (answer tt, db')
        → (bolt.get (bytes_of old_url) db'.keysets ≡ none)
          × (bytes_of new_url ≢ bytes_of old_url → IsMoved new_url old db db')
    update_keyset_mint_url-IsMoved old_url new_url db db' old found distinct h =
        let (old', bucket, e, moved, same) = moved_answer old_url new_url db db' h in
        let same_old : old' ≡ old = cc in
        (
          rw (← same)
              (laws.get-delete (bytes_of old_url) (bolt.put (bytes_of new_url) bucket db.keysets)),
          λ other. (
            bucket,
            rw (← same) (
                laws.get-delete_other (bytes_of new_url) (bytes_of old_url)
                  (bolt.put (bytes_of new_url) bucket db.keysets) other
                ∙ laws.get-put (bytes_of new_url) bucket db.keysets),
            move_keysets-AreMoved bolt laws new_url (bolt.entries old)
                (bucket_of bolt (bolt.get (bytes_of new_url) db.keysets)) bucket distinct
                (rw same_old at moved),
          ),
        )
