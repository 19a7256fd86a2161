-- ===== src/Api/Certificates/Rules.antt =====
-- What `enqueueBatch` keeps of the database: any property that new certificates and stamped
-- retirements keep.
use carbon_veritas.Base.{
  ℕ, ◌≡◌, String, Bool, false, Option, none, some, List, [], ◌∷◌, ◌++◌, length, ◌==◌, All,
  Option-cases, inl, inr, Bool-cases,
}
use carbon_veritas.Store.Rows.{modify, select}
use carbon_veritas.Store.Schema.{Db, Credit, Retirement, Certificate, retirement_by_id}
use carbon_veritas.Store.Prisma.{PrismaClient}
use carbon_veritas.Store.Action.{
  Action, World, Result, ok, err, certificates, retirements, create, update, ◌>>=◌, ◌>>◌, pure,
  throw_if,
}
use carbon_veritas.Store.Action.Rules.{Ensures, >>=-Ensures, create-Ensures, update-Ensures}
use carbon_veritas.Api.Certificates.{
  certificate_of, certificate_row, stamp, generate_certificate_hash, BatchEntry, new_certificate,
  BatchResult, generated, certify, certify_all, enqueue_batch, eligible_credits, is_generated,
  is_existing,
}

module _ (P : Db → Type 0) where
  abbrev Safe : {C A : Type 0} → Result A × World C → Type 0
  Safe = Ensures P (λ a d. Unit {0})

  Safe-db : {C A : Type 0} (x : Result A × World C) → Safe x → P x.1.db
  Safe-db (ok a, w) (h, _) = h
  Safe-db (err e, w) h = h

  pure-Safe : {C A : Type 0} (a : A) (w : World C) → P w.db → Safe (pure a w)
  pure-Safe a w h = (h, tt)

  >>=-Safe :
      {C A B : Type 0} (m : Action C A) (f : A → Action C B) (w : World C)
      → Safe (m w)
      → ((a : A) (w' : World C) → P w'.db → Safe (f a w'))
      → Safe ((m >>= f) w)
  >>=-Safe m f w h k =
      >>=-Ensures P (λ a d. Unit {0}) (λ a d. Unit {0}) m f w h (λ a w' u _. k a w' u)

module _ (P : Db → Type 0) (sha256 : String → String) (show : ℕ → String)
    (added : (user_id : String) (c : Credit) (r : Retirement) (id : String) (d : Db)
      → P d
      → All
          (λ x. certificate_of (generate_certificate_hash sha256 show c r) x ≡ false)
          d.certificates
      → P (record d {
        certificates = d.certificates ++ certificate_row sha256 show user_id c r id ∷ [];
      }))
    (stamped : (p : Retirement → Bool) (hash : String) (d : Db)
      → P d
      → P (record d { retirements = modify p (stamp hash) d.retirements })) where
  module _ (client : PrismaClient) {C : Type 0} where
    new_certificate-Safe :
        (user_id : String) (c : Credit) (r : Retirement) (w : World C)
        → P w.db
        → All
            (λ x. certificate_of (generate_certificate_hash sha256 show c r) x ≡ false)
            w.db.certificates
        → Safe P (
            new_certificate sha256 show client user_id c r
              (generate_certificate_hash sha256 show c r)
              w)
    unfolding new_certificate
    new_certificate-Safe user_id c r w h new =
        let hash = generate_certificate_hash sha256 show c r in
        let row = certificate_row sha256 show user_id c r in
        let answer : Certificate → Action C BatchEntry =
          λ made. pure (generated c.credit_id made.id hash) in
        let stamps : Action C Retirement =
          update client retirements (retirement_by_id r.id) (stamp hash) in
        >>=-Safe P (create client certificates row) (λ made. stamps >> answer made) w
          (create-Ensures client certificates P (λ a d. Unit {0}) row w h
            (added user_id c r _ w.db h new, tt))
          (λ made v safe.
            >>=-Safe P stamps (λ _. answer made) v
              (update-Ensures client retirements P (λ a d. Unit {0}) (retirement_by_id r.id)
                (stamp hash) v safe (stamped (retirement_by_id r.id) hash v.db safe, λ _ _. tt))
              (λ _ u k. (k, tt)))

    certify-Safe :
        (user_id : String) (c : Credit) (r : Retirement) (w : World C)
        → P w.db
        → Safe P (certify sha256 show client user_id c r w)
    unfolding certify
    certify-Safe user_id c r w h =
        let hash = generate_certificate_hash sha256 show c r in
        elim (Option-cases
          (client.find_first Certificate (certificate_of hash) w.db.certificates)) [
            | inr (old, found) ↦ rw (certify, found) (h, tt)
            | inl new ↦
                rw (certify, new)
                  (new_certificate-Safe user_id c r w h (
                    client.find_first_none Certificate (certificate_of hash) w.db.certificates new))
          ]

    certify_all-Safe :
        (user_id : String) (cs : List (Credit × Option Retirement)) (w : World C)
        → P w.db
        → Safe P (certify_all sha256 show client user_id cs w)
    unfolding certify_all
    certify_all-Safe user_id [] w h = (h, tt)
    certify_all-Safe user_id ((c, none) ∷ rest) w h = certify_all-Safe user_id rest w h
    certify_all-Safe user_id ((c, some r) ∷ rest) w h =
        let others = certify_all sha256 show client user_id rest in
        let add : BatchEntry → List BatchEntry → Action C (List BatchEntry) =
          λ entry entries. pure (entry ∷ entries) in
        >>=-Safe P (certify sha256 show client user_id c r) (λ entry. others >>= add entry) w
          (certify-Safe user_id c r w h)
          (λ entry v safe.
            >>=-Safe P others (add entry) v (certify_all-Safe user_id rest v safe)
              (λ entries u k. (k, tt)))

    enqueue_batch-Safe :
        (user_id : String) (ids : List ℕ) (w : World C)
        → P w.db
        → Safe P (enqueue_batch sha256 show client user_id ids w)
    unfolding enqueue_batch
    enqueue_batch-Safe user_id ids w h =
        let credits = eligible_credits sha256 show client user_id ids w in
        let answer : List BatchEntry → Action C BatchResult = λ results. pure (record {
          total = length credits;
          generated = length (select is_generated results);
          existing = length (select is_existing results);
          results = results;
        }) in
        elim (Bool-cases (length credits == 0)) [
          | inl empty ↦ rw (throw_if, empty) h
          | inr some' ↦
              rw (throw_if, some')
                (>>=-Safe P (certify_all sha256 show client user_id credits) answer w
                  (certify_all-Safe user_id credits w h) (λ entries u k. (k, tt)))
        ]

    pub enqueue_batch-keeps :
        (user_id : String) (ids : List ℕ) (w : World C)
        → P w.db
        → P (enqueue_batch sha256 show client user_id ids w).1.db
    enqueue_batch-keeps user_id ids w h = Safe-db P _ (enqueue_batch-Safe user_id ids w h)
