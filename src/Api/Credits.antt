-- ===== src/Api/Credits.antt =====
-- `CreditsService`, api/src/credits/credits.service.ts: issuing a credit and the votes of the
-- verifiers. `threshold` and `quorum` are the numbers of VERIFIER_THRESHOLD and VERIFIER_QUORUM.
pub mod Votes
pub mod Once
pub mod Flags
use carbon_veritas.Base.{
  ℕ, ◌+◌, String, Bool, true, false, not, ◌&&◌, Option, none, some, List, [], leb, str_eq, or_else,
}
use carbon_veritas.Store.Rows.{exists?}
use carbon_veritas.Store.Schema.{
  Credit, Approval, Verifier, ℤ, CreditStatus, VerifierStatus, credit_by_number, user_by_id,
}
use carbon_veritas.Store.Prisma.{PrismaClient}
use carbon_veritas.Store.Action.{
  Action, pure, throw_if, or_throw, when, emit, ◌>>=◌, ◌>>◌, users, credits, approvals, verifiers,
  find_unique, find_first, find_last, find_many, count, create, update, not_found, bad_request,
  forbidden,
}
use carbon_veritas.Api.Stellar.{Stellar, Call, call}
use carbon_veritas.Api.Credits.Flags.{generate_serial_prefix, compute_sdg_flags}

pub record CreateCreditDto : Type 0 where
  pub project_id : String
  pub methodology : String
  pub vintage_start : String
  pub vintage_end : String
  pub tonnes : ℕ
  pub geography : String
  pub permanence_rating : Option ℕ
  pub buffer_contribution_pct : Option ℕ
  pub additionality_type : Option ℕ
  pub documentation : Option (List (String × String))
  pub sdg_cobenefits : Option (List ℤ)

abbrev pub is_pending : CreditStatus → Bool
is_pending CreditStatus.pending = true
is_pending _ = false

abbrev pub is_active_status : VerifierStatus → Bool
is_active_status VerifierStatus.active = true
is_active_status _ = false

abbrev pub is_active_verifier : Option Verifier → Bool
is_active_verifier none = false
is_active_verifier (some v) = is_active_status v.status

-- A text that is neither null nor empty.
abbrev pub is_text : Option String → Bool
is_text none = false
is_text (some s) = not (str_eq s "")

abbrev pub of_credit : String → Approval → Bool
of_credit id a = str_eq a.credit_id id

abbrev pub approved_by : String → Approval → Bool
approved_by user_id a = str_eq a.verifier_id user_id && a.approved

abbrev pub rejected_by : String → Approval → Bool
rejected_by user_id a = str_eq a.verifier_id user_id && not a.approved

abbrev pub decision : Credit → String → Bool → Option String → String → Approval
decision credit user_id approved comments id = record {
  id = id;
  credit_id = credit.id;
  verifier_id = user_id;
  approved = approved;
  comments = comments;
}

abbrev pub activate : Option String → Credit → Credit
activate tx_hash c = record c { status = CreditStatus.active; token_id = tx_hash }

abbrev pub refuse : Credit → Credit
refuse c = record c { status = CreditStatus.rejected }

abbrev pub next_credit_id : Option Credit → ℕ
next_credit_id none = 1
next_credit_id (some c) = c.credit_id + 1

abbrev pub issued :
    (String → String) → (String → ℕ) → CreateCreditDto → ℕ → String → String → String → Credit
issued upper date dto number ipfs_hash user_id id = record {
  id = id;
  credit_id = number;
  project_id = dto.project_id;
  methodology = dto.methodology;
  vintage_start = date dto.vintage_start;
  vintage_end = date dto.vintage_end;
  tonnes = dto.tonnes;
  geography = dto.geography;
  serial_prefix = generate_serial_prefix upper dto.project_id dto.methodology;
  sdg_flags = compute_sdg_flags (or_else dto.sdg_cobenefits []);
  permanence_rating = or_else dto.permanence_rating 50;
  buffer_contribution_pct = or_else dto.buffer_contribution_pct 10;
  additionality_type = or_else dto.additionality_type 0;
  ipfs_hash = ipfs_hash;
  status = CreditStatus.pending;
  token_id = none;
  issuer_id = user_id;
  owner_id = user_id;
}

module _ (client : PrismaClient) {C : Type 0} (stellar : Stellar C) where
  unfoldable pub require_verifier : String → Action C (Unit {0})
  require_verifier user_id = do
    verifier ← find_first client verifiers (λ v. str_eq v.user_id user_id)
    throw_if (not (is_active_verifier verifier)) (forbidden "Not an active verifier")

  unfoldable pub get_next_credit_counter : Action C ℕ
  get_next_credit_counter = do
    last ← find_last client credits (λ c. c.credit_id)
    pure (next_credit_id last)

  -- `upper` is `toUpperCase`; `pin_json` is the IPFS service, with the payload made of the request.
  unfoldable pub issue_credit :
      (String → String)
      → (String → ℕ)
      → (CreateCreditDto → Call C String)
      → String
      → String
      → CreateCreditDto
      → Action C Credit
  unfolding get_next_credit_counter
  issue_credit upper date pin_json user_id wallet dto = do
    user ← find_unique client users (user_by_id user_id)
    known ← or_throw user (not_found "User not found")
    ipfs_hash ← call (pin_json dto)
    tx_hash ← call (stellar.submit_credit wallet dto.project_id ipfs_hash)
    credit_counter ← get_next_credit_counter
    credit ← create client credits (issued upper date dto credit_counter ipfs_hash user_id)
    emit "credit.submitted" credit.credit_id
    pure credit

  unfoldable pub approve_credit : ℕ → String → String → ℕ → Option String → Action C (Option Credit)
  unfolding require_verifier
  approve_credit threshold user_id wallet credit_id comments = do
    require_verifier user_id
    found ← find_unique client credits (credit_by_number credit_id)
    credit ← or_throw found (not_found "Credit not found")
    given ← find_many client approvals (of_credit credit.id)
    throw_if (not (is_pending credit.status)) (bad_request "Credit is not in PENDING status")
    throw_if (exists? (approved_by user_id) given) (bad_request "Already approved this credit")
    tx_hash ← call (stellar.approve_and_mint wallet credit_id (or_else comments ""))
    create client approvals (decision credit user_id true comments)
    total_approvals ← count client approvals (λ a. of_credit credit.id a && a.approved)
    let mints = leb threshold total_approvals && is_text tx_hash
    when mints (do update client credits (credit_by_number credit_id) (activate tx_hash); pure tt)
    emit "credit.approved" credit_id
    when mints (emit "credit.minted" credit_id)
    find_unique client credits (credit_by_number credit_id)

  unfoldable pub reject_credit : ℕ → String → String → ℕ → String → Action C (Option Credit)
  unfolding require_verifier
  reject_credit quorum user_id wallet credit_id reason = do
    require_verifier user_id
    found ← find_unique client credits (credit_by_number credit_id)
    credit ← or_throw found (not_found "Credit not found")
    given ← find_many client approvals (of_credit credit.id)
    throw_if (not (is_pending credit.status)) (bad_request "Credit is not in PENDING status")
    throw_if (exists? (rejected_by user_id) given)
        (bad_request "Already recorded a decision on this credit")
    call (stellar.reject_credit wallet credit_id reason)
    create client approvals (decision credit user_id false (some reason))
    total_rejections ← count client approvals (λ a. of_credit credit.id a && not a.approved)
    when (leb quorum total_rejections)
        (do update client credits (credit_by_number credit_id) refuse; pure tt)
    emit "credit.rejected" credit_id
    find_unique client credits (credit_by_number credit_id)
