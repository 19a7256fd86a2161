-- ===== src/Api/Certificates/Uniqueness.antt =====
-- A certificate hash is given out once.
use carbon_veritas.Base.{
  ℕ, ◌≤◌, ◌≡◌, String, false, List, [], ◌∷◌, ◌++◌, length, arith, All, inl, inr, Bool-cases, str_eq,
  eq_iff,
}
use carbon_veritas.Store.Rows.{select, length-select-append, length-select-never}
use carbon_veritas.Store.Schema.{Db, Credit, Retirement}
use carbon_veritas.Store.Prisma.{PrismaClient}
use carbon_veritas.Store.Action.{World}
use carbon_veritas.Api.Certificates.{
  certificate_of, certificate_row, generate_certificate_hash, enqueue_batch,
}
use carbon_veritas.Api.Certificates.Rules.{enqueue_batch-keeps}

-- No two certificates of the table carry the same hash.
abbrev pub HashesUnique : Db → Type 0
HashesUnique d = (hash : String) → length (select (certificate_of hash) d.certificates) ≤ 1

module _ (sha256 : String → String) (show : ℕ → String) where
  added-HashesUnique :
      (user_id : String) (c : Credit) (r : Retirement) (id : String) (d : Db)
      → HashesUnique d
      → All
          (λ x. certificate_of (generate_certificate_hash sha256 show c r) x ≡ false)
          d.certificates
      → HashesUnique (record d {
        certificates = d.certificates ++ certificate_row sha256 show user_id c r id ∷ [];
      })
  added-HashesUnique user_id c r id d h new hash =
      let made = generate_certificate_hash sha256 show c r in
      let row = certificate_row sha256 show user_id c r id in
      elim (Bool-cases (str_eq made hash)) [
        | inl same ↦
            let here : All (λ x. certificate_of hash x ≡ false) d.certificates =
              rw ((eq_iff made hash).0 same) at new in
            ground (
              arith,
              length-select-append (certificate_of hash) d.certificates (row ∷ []),
              length-select-never (certificate_of hash) d.certificates here,
            )
        | inr other ↦
            ground
              (arith, length-select-append (certificate_of hash) d.certificates (row ∷ []), h hash)
      ]

  module _ (client : PrismaClient) {C : Type 0} where
    -- If no two certificates carry the same hash, this holds after `enqueueBatch`, for any user
    -- and any credits and whether it succeeds or throws: a certificate is not given out twice.
    pub enqueue_batch-HashesUnique :
        (user_id : String) (ids : List ℕ) (w : World C)
        → HashesUnique w.db
        → HashesUnique (enqueue_batch sha256 show client user_id ids w).1.db
    enqueue_batch-HashesUnique =
        enqueue_batch-keeps HashesUnique sha256 show added-HashesUnique (λ p hash d h. h) client
