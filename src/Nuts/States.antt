-- ===== src/Nuts/States.antt =====
-- cashu/nuts/nut04, nut05 and nut07: the states of a mint quote, of a melt quote and of a proof,
-- and the texts under which they are stored and sent.
use gonuts.Prelude.{String, ◌≡◌, refl, str_eq, if◌then◌else◌}

-- nut04.State
pub data MintState : Type 0 where
  unpaid paid issued pending unknown : MintState

-- State.String
unfoldable pub mint_state_text : MintState → String
mint_state_text MintState.unpaid = "UNPAID"
mint_state_text MintState.paid = "PAID"
mint_state_text MintState.issued = "ISSUED"
mint_state_text MintState.pending = "PENDING"
mint_state_text MintState.unknown = "unknown"

-- StringToState
unfoldable pub mint_state_of : String → MintState
mint_state_of s =
    if str_eq s "UNPAID"
    then MintState.unpaid
    else if str_eq s "PAID"
    then MintState.paid
    else if str_eq s "ISSUED"
    then MintState.issued
    else if str_eq s "PENDING"
    then MintState.pending
    else MintState.unknown

-- nut05.State
pub data MeltState : Type 0 where
  unpaid pending paid unknown : MeltState

unfoldable pub melt_state_text : MeltState → String
melt_state_text MeltState.unpaid = "UNPAID"
melt_state_text MeltState.pending = "PENDING"
melt_state_text MeltState.paid = "PAID"
melt_state_text MeltState.unknown = "unknown"

unfoldable pub melt_state_of : String → MeltState
melt_state_of s =
    if str_eq s "UNPAID"
    then MeltState.unpaid
    else if str_eq s "PENDING"
    then MeltState.pending
    else if str_eq s "PAID"
    then MeltState.paid
    else MeltState.unknown

-- nut07.State
pub data ProofStatus : Type 0 where
  unspent pending spent unknown : ProofStatus

unfoldable pub proof_status_text : ProofStatus → String
proof_status_text ProofStatus.unspent = "UNSPENT"
proof_status_text ProofStatus.pending = "PENDING"
proof_status_text ProofStatus.spent = "SPENT"
proof_status_text ProofStatus.unknown = "unknown"

unfoldable pub proof_status_of : String → ProofStatus
proof_status_of s =
    if str_eq s "UNSPENT"
    then ProofStatus.unspent
    else if str_eq s "PENDING"
    then ProofStatus.pending
    else if str_eq s "SPENT"
    then ProofStatus.spent
    else ProofStatus.unknown

pub mint_state_of-text : (s : MintState) → mint_state_of (mint_state_text s) ≡ s
unfolding mint_state_of mint_state_text
mint_state_of-text MintState.unpaid = refl
mint_state_of-text MintState.paid = refl
mint_state_of-text MintState.issued = refl
mint_state_of-text MintState.pending = refl
mint_state_of-text MintState.unknown = refl

pub melt_state_of-text : (s : MeltState) → melt_state_of (melt_state_text s) ≡ s
unfolding melt_state_of melt_state_text
melt_state_of-text MeltState.unpaid = refl
melt_state_of-text MeltState.pending = refl
melt_state_of-text MeltState.paid = refl
melt_state_of-text MeltState.unknown = refl

pub proof_status_of-text : (s : ProofStatus) → proof_status_of (proof_status_text s) ≡ s
unfolding proof_status_of proof_status_text
proof_status_of-text ProofStatus.unspent = refl
proof_status_of-text ProofStatus.pending = refl
proof_status_of-text ProofStatus.spent = refl
proof_status_of-text ProofStatus.unknown = refl
