-- ===== src/Api/Verifiers/Registration.antt =====
-- A user is registered as a verifier at most once.
use carbon_veritas.Base.{
  ℕ, ◌≤◌, ◌≡◌, ◌⊎◌, inl, inr, String, false, none, List, [], ◌∷◌, ◌++◌, arith, length, All, eq_iff,
  Bool-cases, Option-cases,
}
use carbon_veritas.Store.Rows.{
  find?, modify, select, find?-never, length-select-append, length-select-never,
  length-select-modify_found,
}
use carbon_veritas.Store.Schema.{Verifier, verifier_by_id}
use carbon_veritas.Store.Prisma.{PrismaClient}
use carbon_veritas.Store.Action.{World, verifiers}
use carbon_veritas.Api.Stellar.{Stellar}
use carbon_veritas.Api.Verifiers.{of_user, new_verifier, beat, register, heartbeat}

abbrev pub RegisteredOnce : List Verifier → Type 0
RegisteredOnce rows = (user_id : String) → length (select (of_user user_id) rows) ≤ 1

enrolled-RegisteredOnce :
    (rows : List Verifier) (v : Verifier)
    → All (λ r. of_user v.user_id r ≡ false) rows
    → RegisteredOnce rows
    → RegisteredOnce (rows ++ v ∷ [])
enrolled-RegisteredOnce rows v new h u =
    let sum = length-select-append (of_user u) rows (v ∷ []) in
    elim (Bool-cases (of_user u v)) [
      | inr other ↦ rw sum (rw other (omega (arith, h u)))
      | inl same ↦
          let none' = length-select-never (of_user v.user_id) rows new in
          let none'' : length (select (of_user u) rows) ≡ 0 = rw ((eq_iff _ _).0 same) at none' in
          rw sum (rw same (omega (arith, none'')))
    ]

module _ (client : PrismaClient) {C : Type 0} (stellar : Stellar C) where
  register-verifiers :
      (now : ℕ) (user_id wallet : String) (stake : ℕ) (w : World C)
      → let after = (register client stellar now user_id wallet stake w).1.db.verifiers in
        (after ≡ w.db.verifiers)
        ⊎ ((client.find_first Verifier (of_user user_id) w.db.verifiers ≡ none)
            × (after ≡ w.db.verifiers ++ new_verifier user_id stake now (client.cuid w.drawn) ∷ []))
  unfolding register
  register-verifiers now user_id wallet stake w =
      let row = new_verifier user_id stake now (client.cuid w.drawn) in
      ground (
        arith,
        client.create_new Verifier verifiers.clash row w.db.verifiers (find?-never w.db.verifiers),
      )

  register-RegisteredOnce :
      (now : ℕ) (user_id wallet : String) (stake : ℕ) (w : World C)
      → RegisteredOnce w.db.verifiers
      → RegisteredOnce (register client stellar now user_id wallet stake w).1.db.verifiers
  register-RegisteredOnce now user_id wallet stake w h =
      elim (register-verifiers now user_id wallet stake w) [
        | inl same ↦ rw same h
        | inr (none', new) ↦ rw new (
            enrolled-RegisteredOnce w.db.verifiers _
              (client.find_first_none Verifier (of_user user_id) w.db.verifiers none') h)
      ]

  heartbeat-RegisteredOnce :
      (now : ℕ) (id : String) (w : World C)
      → RegisteredOnce w.db.verifiers
      → RegisteredOnce (heartbeat client stellar now id w).1.db.verifiers
  unfolding heartbeat
  heartbeat-RegisteredOnce now id w h =
      let p = verifier_by_id id in
      let after = (heartbeat client stellar now id w).1.db.verifiers in
      elim (Option-cases (find? p w.db.verifiers)) [
        | inl missing ↦
            let e : after ≡ w.db.verifiers =
              ground (arith, client.find_unique_lem Verifier p w.db.verifiers) in
            rw e h
        | inr (v, found) ↦
            let e : after ≡ modify p (beat now) w.db.verifiers = ground (
              arith,
              client.find_unique_lem Verifier p w.db.verifiers,
              client.update_found Verifier p (beat now) w.db.verifiers v found,
            ) in
            rw e λ u. omega (
              arith,
              length-select-modify_found p (of_user u) (beat now) w.db.verifiers v found
                  (λ same. same),
              h u,
            )
      ]

pub data VerifierRequest : Type 0 where
  enroll : (user_id wallet : String) (stake : ℕ) → VerifierRequest
  report : (id : String) → VerifierRequest

module _ (client : PrismaClient) {C : Type 0} (stellar : Stellar C) where
  -- Requests served one after the other, each with the clock at its time.
  unfoldable pub serve_verifiers : List (ℕ × VerifierRequest) → World C → World C
  serve_verifiers [] w = w
  serve_verifiers ((now, enroll user_id wallet stake) ∷ rest) w =
      serve_verifiers rest (register client stellar now user_id wallet stake w).1
  serve_verifiers ((now, report id) ∷ rest) w =
      serve_verifiers rest (heartbeat client stellar now id w).1

  -- If every user has at most one row among the verifiers, this holds after any sequence of
  -- registrations and heartbeats, whatever the chain answers and whether they succeed or throw.
  pub serve_verifiers-RegisteredOnce :
      (requests : List (ℕ × VerifierRequest)) (w : World C)
      → RegisteredOnce w.db.verifiers
      → RegisteredOnce (serve_verifiers requests w).db.verifiers
  unfolding serve_verifiers
  serve_verifiers-RegisteredOnce [] w h = h
  serve_verifiers-RegisteredOnce ((now, enroll user_id wallet stake) ∷ rest) w h =
      serve_verifiers-RegisteredOnce rest (register client stellar now user_id wallet stake w).1
        (register-RegisteredOnce client stellar now user_id wallet stake w h)
  serve_verifiers-RegisteredOnce ((now, report id) ∷ rest) w h =
      serve_verifiers-RegisteredOnce rest (heartbeat client stellar now id w).1
        (heartbeat-RegisteredOnce client stellar now id w h)
