-- ===== src/Api/Certificates/Verdict.antt =====
-- What a positive verdict of `verify` rests on.
use carbon_veritas.Base.{
  ◌≡◌, sym, ◌∙◌, ap, ℕ, String, true, some, arith, Option-cases, inl, inr, str_eq, eq_iff,
}
use carbon_veritas.Store.Rows.{find?, Contains}
use carbon_veritas.Store.Schema.{User, Credit, Retirement, Certificate, credit_by_id, user_by_id}
use carbon_veritas.Store.Prisma.{PrismaClient}
use carbon_veritas.Store.Action.{World, ok}
use carbon_veritas.Api.Stellar.{Call}
use carbon_veritas.Api.Certificates.{
  Verification, certificate_of, retirement_of, compare_hashes, verify,
}

module _ (client : PrismaClient) {C : Type 0} (certificate_hash : ℕ → Call C String) where
  -- The chain confirms the hash for the credit of the retirement.
  abbrev Confirmed : String → Retirement → World C → Type 0
  Confirmed hash r w =
      (credit : Credit) × (find? (credit_by_id r.credit_id) w.db.credits ≡ some credit)
      × ((certificate_hash credit.credit_id w.chain).0 ≡ some hash)

  abbrev pub Backed : String → World C → Type 0
  Backed hash w =
      ((c : Certificate) × Contains c w.db.certificates × (certificate_of hash c ≡ true))
      × ((r : Retirement) × Contains r w.db.retirements
          × (retirement_of hash r ≡ true)
          × Confirmed hash r w)

  compare_hashes-Confirmed :
      (hash : String) (c : Certificate) (r : Retirement) (w w' : World C) (v : Verification)
      → compare_hashes client certificate_hash hash c r w ≡ (ok v, w')
      → v.valid ≡ true
      → Confirmed hash r w
  unfolding compare_hashes
  compare_hashes-Confirmed hash c r w w' v e valid =
      elim (Option-cases (client.find_unique User (user_by_id c.user_id) w.db.users)) [
        | inl no_user ↦ ground arith
        | inr (user, owner) ↦
            elim (Option-cases
              (client.find_unique Credit (credit_by_id r.credit_id) w.db.credits)) [
                | inl no_credit ↦ ground arith
                | inr (credit, included) ↦
                    elim (Option-cases (certificate_hash credit.credit_id w.chain).0) [
                      | inl failed ↦ ground arith
                      | inr (on_chain, answered) ↦
                          let same : str_eq on_chain hash ≡ true = ground arith in
                          (
                            credit,
                            sym (
                                  client.find_unique_lem Credit (credit_by_id r.credit_id)
                                    w.db.credits)
                                ∙ included,
                            answered ∙ ap some ((eq_iff _ _).0 same),
                          )
                    ]
              ]
      ]

  -- When `verify` answers that a hash is valid, a certificate and a retirement in the database
  -- carry this hash, the credit of that retirement is in the database, and the chain holds this
  -- very hash for the credit.
  pub verify-Backed :
      (hash : String) (w w' : World C) (v : Verification)
      → verify client certificate_hash hash w ≡ (ok v, w')
      → v.valid ≡ true
      → Backed hash w
  unfolding verify
  verify-Backed hash w w' v e valid =
      elim (Option-cases (client.find_first Certificate (certificate_of hash) w.db.certificates)) [
        | inl missing ↦ ground arith
        | inr (c, found) ↦
            let (holds, there) =
              client.find_first_holds Certificate (certificate_of hash) w.db.certificates c found in
            elim (Option-cases
              (client.find_first Retirement (retirement_of hash) w.db.retirements)) [
                | inl none' ↦ ground arith
                | inr (r, retired) ↦
                    let (holds', there') =
                      client.find_first_holds Retirement (retirement_of hash) w.db.retirements r
                        retired in
                    let run : compare_hashes client certificate_hash hash c r w ≡ (ok v, w') =
                      rw (verify, found, retired) at e in
                    (
                      (c, there, holds),
                      (r, there', holds', compare_hashes-Confirmed hash c r w w' v run valid),
                    )
              ]
      ]
