-- ===== src/Api/Certificates.antt =====
-- `CertificatesService`, api/src/certificates/certificates.service.ts: all
-- but the drawing of the PDF.
-- `sha256` is the digest of Node's crypto in hexadecimal, `show` writes a number.
pub mod Rules
pub mod Uniqueness
pub mod Integrity
pub mod Verdict
mod Tests
use carbon_veritas.Base.{
  ℕ, ◌+◌, String, Bool, true, false, ◌&&◌, Option, none, some, List, [], ◌∷◌, map, length, ◌==◌,
  str_eq, if◌then◌else◌, join,
}
use carbon_veritas.Store.Rows.{exists?, select}
use carbon_veritas.Store.Schema.{
  Credit, CreditStatus, Retirement, Certificate, CertificateMetadata, credit_by_id, user_by_id,
  certificate_by_id, retirement_by_id,
}
use carbon_veritas.Store.Prisma.{PrismaClient}
use carbon_veritas.Store.Action.{
  Action, World, ok, pure, throw_if, or_throw, ◌>>=◌, ◌>>◌, users, credits, retirements,
  certificates, find_unique, find_first, find_many, create, update, bad_request, not_found,
  upstream,
}
use carbon_veritas.Api.Stellar.{Call, call}

-- The answer of `verify`: the certificate's identifier and owner, the retirement and its credit.
pub record Verification : Type 0 where
  pub valid : Bool
  pub message : String
  pub certificate : Option (String × String)
  pub retirement : Option (Credit × Retirement)

abbrev pub refused : String → Verification
refused message = record { valid = false; message = message; certificate = none; retirement = none }

abbrev pub has_hash : String → Option String → Bool
has_hash hash none = false
has_hash hash (some h) = str_eq h hash

abbrev pub certificate_of : String → Certificate → Bool
certificate_of hash c = has_hash hash c.certificate_hash

abbrev pub retirement_of : String → Retirement → Bool
retirement_of hash r = has_hash hash r.certificate_hash

abbrev pub verdict_message : Bool → String
verdict_message valid =
    if valid
    then "Certificate verified successfully on-chain"
    else "Certificate hash does not match on-chain record"

module _ (client : PrismaClient) {C : Type 0} (certificate_hash : ℕ → Call C String) where
  -- From the point where both rows are found.
  unfoldable pub compare_hashes : String → Certificate → Retirement → Action C Verification
  compare_hashes hash certificate retirement = do
    user ← find_unique client users (user_by_id certificate.user_id)
    owner ← or_throw user (upstream "prisma")
    included ← find_unique client credits (credit_by_id retirement.credit_id)
    credit ← or_throw included (upstream "prisma")
    on_chain_hash ← call (certificate_hash credit.credit_id)
    let valid = str_eq on_chain_hash hash
    pure (record {
      valid = valid;
      message = verdict_message valid;
      certificate = some (certificate.id, owner.stellar_pub);
      retirement = some (credit, retirement);
    })

  unfoldable pub verify : String → Action C Verification
  verify hash w = elim (client.find_first Certificate (certificate_of hash) w.db.certificates) [
    | none ↦ (ok (refused "Certificate not found in registry"), w)
    | some certificate ↦ elim (client.find_first Retirement (retirement_of hash) w.db.retirements) [
      | none ↦ (ok (refused "No matching retirement record found for certificate"), w)
      | some retirement ↦ compare_hashes hash certificate retirement w
    ]
  ]

-- `where: { certificateHash: certificate.certificateHash ?? undefined }`: without a hash the
-- condition is empty.
abbrev pub retirement_like : Option String → Retirement → Bool
retirement_like none r = true
retirement_like (some hash) r = retirement_of hash r

module _ (client : PrismaClient) {C : Type 0} where
  abbrev included_credit : Option Retirement → Action C (Option (Credit × Retirement))
  included_credit none = pure none
  included_credit (some r) = do
    included ← find_unique client credits (credit_by_id r.credit_id)
    credit ← or_throw included (upstream "prisma")
    pure (some (credit, r))

  -- The certificate, the wallet of its owner, and the retirement with its credit.
  unfoldable pub get_certificate :
      String → Action C (Certificate × String × Option (Credit × Retirement))
  get_certificate certificate_id = do
    found ← find_unique client certificates (certificate_by_id certificate_id)
    certificate ← or_throw found (not_found "Certificate not found")
    user ← find_unique client users (user_by_id certificate.user_id)
    owner ← or_throw user (upstream "prisma")
    first ← find_first client retirements (retirement_like certificate.certificate_hash)
    retirement ← included_credit first
    pure (certificate, owner.stellar_pub, retirement)

  unfoldable pub get_owned_certificates : String → Action C (List Certificate)
  get_owned_certificates user_id = find_many client certificates (λ c. str_eq c.user_id user_id)

-- The result for one credit.
pub data BatchEntry : Type 0 where
  existing : (credit_id : ℕ) (certificate_id : String) → BatchEntry
  generated : (credit_id : ℕ) (certificate_id certificate_hash : String) → BatchEntry

pub record BatchResult : Type 0 where
  pub total : ℕ
  pub generated : ℕ
  pub existing : ℕ
  pub results : List BatchEntry

abbrev pub is_generated : BatchEntry → Bool
is_generated (generated _ _ _) = true
is_generated (existing _ _) = false

abbrev pub is_existing : BatchEntry → Bool
is_existing (existing _ _) = true
is_existing (generated _ _ _) = false

abbrev pub is_retired_credit : CreditStatus → Bool
is_retired_credit CreditStatus.retired = true
is_retired_credit _ = false

-- `creditId: { in: dto.creditIds }, status: 'RETIRED'`
abbrev pub is_eligible : List ℕ → Credit → Bool
is_eligible ids c = exists? (λ n. n == c.credit_id) ids && is_retired_credit c.status

abbrev pub retired_by : String → Credit → Retirement → Bool
retired_by user_id c r = str_eq r.credit_id c.id && str_eq r.retired_by_id user_id

abbrev pub stamp : String → Retirement → Retirement
stamp hash r = record r { certificate_hash = some hash }

unfoldable pub certificate_metadata : Credit → Retirement → CertificateMetadata
certificate_metadata c r = record {
  credit_id = c.credit_id;
  project_id = c.project_id;
  methodology = c.methodology;
  geography = c.geography;
  vintage_start = c.vintage_start;
  vintage_end = c.vintage_end;
  tonnes = c.tonnes;
  serial_prefix = c.serial_prefix;
  beneficiary = r.beneficiary;
  reason = r.reason;
  accounting_period = r.accounting_period;
  tonnes_retired = r.tonnes_retired;
  retirement_date = r.timestamp;
}

module _ (sha256 : String → String) (show : ℕ → String) where
  unfoldable pub generate_certificate_hash : Credit → Retirement → String
  generate_certificate_hash c r = sha256 (
      join ":" (
        show c.credit_id
        ∷ c.project_id
        ∷ show c.tonnes
        ∷ r.beneficiary
        ∷ r.reason
        ∷ show r.timestamp
        ∷ []))

  abbrev pub certificate_row : String → Credit → Retirement → String → Certificate
  certificate_row user_id c r id = record {
    id = id;
    user_id = user_id;
    credit_id = c.id;
    tx_hash = some r.tx_hash;
    metadata = certificate_metadata c r;
    certificate_hash = some (generate_certificate_hash c r);
  }

  module _ (client : PrismaClient) {C : Type 0} where
    -- The credits of `findMany`, each with its included retirement: the user's latest.
    unfoldable pub eligible_credits : String → List ℕ → World C → List (Credit × Option Retirement)
    eligible_credits user_id ids w =
        map
          (λ c. (
            c,
            client.find_last Retirement (λ r. r.timestamp)
                (client.find_many Retirement (retired_by user_id c) w.db.retirements),
          ))
          (client.find_many Credit (is_eligible ids) w.db.credits)

    -- The part of the round after `existing`.
    unfoldable pub new_certificate : String → Credit → Retirement → String → Action C BatchEntry
    new_certificate user_id credit retirement hash = do
      certificate ← create client certificates (certificate_row user_id credit retirement)
      update client retirements (retirement_by_id retirement.id) (stamp hash)
      pure (generated credit.credit_id certificate.id hash)

    -- One round of the loop, for a credit with a retirement.
    unfoldable pub certify : String → Credit → Retirement → Action C BatchEntry
    certify user_id credit retirement = do
      let hash = generate_certificate_hash credit retirement
      found ← find_first client certificates (certificate_of hash)
      elim found [
        | some old ↦ pure (existing credit.credit_id old.id)
        | none ↦ new_certificate user_id credit retirement hash
      ]

    unfoldable pub certify_all :
        String → List (Credit × Option Retirement) → Action C (List BatchEntry)
    certify_all user_id [] = pure []
    certify_all user_id ((credit, none) ∷ rest) = certify_all user_id rest
    certify_all user_id ((credit, some retirement) ∷ rest) = do
      entry ← certify user_id credit retirement
      entries ← certify_all user_id rest
      pure (entry ∷ entries)

    unfoldable pub enqueue_batch : String → List ℕ → Action C BatchResult
    enqueue_batch user_id ids w =
        let credits = eligible_credits user_id ids w in
        (do
          throw_if (length credits == 0) (bad_request "No eligible retired credits found")
          results ← certify_all user_id credits
          pure (record {
            total = length credits;
            generated = length (select is_generated results);
            existing = length (select is_existing results);
            results = results;
          }))
          w
