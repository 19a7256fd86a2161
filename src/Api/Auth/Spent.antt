-- ===== src/Api/Auth/Spent.antt =====
-- A challenge is exchanged at most once, whatever happens afterwards.
use carbon_veritas.Base.{
  ℕ, ◌+◌, ◌*◌, ◌⊎◌, ◌≤◌, ◌≡◌, inl, inr, refl, sym, ap, length, String, Bool, true, false, not,
  Option, some, List, [], ◌∷◌, ◌++◌, All, All-append, arith, str_eq, Option-cases, Bool-cases,
}
use mathlib.Core.Path.{subst}
use carbon_veritas.Store.Rows.{find?, modify, select, All-modify}
use carbon_veritas.Store.Schema.{Db, User, Challenge, challenge_by_id, user_by_pub}
use carbon_veritas.Store.Prisma.{PrismaClient}
use carbon_veritas.Store.Action.{World, users, challenges}
use carbon_veritas.Api.Auth.{
  WebAuth, SigningKey, not_configured, malformed, keypair, Claims, is_used, is_stale, new_challenge,
  use_challenge, sign_up, generate_challenge, exchange_token, check_signed, sign_in,
  get_server_keypair, challenge_timeout_seconds,
}
use carbon_veritas.Api.Auth.Integrity.{exchange_token-db}
use carbon_veritas.Api.Auth.SingleUse.{
  is_ok, exchange_token-passes, exchange_token-unknown, exchange_token-used,
}

-- Every challenge of this identifier is used.
abbrev pub Spent : String → List Challenge → Type 0
Spent id rows = All (λ c. challenge_by_id id c ≡ true → is_used c ≡ true) rows

Spent-found :
    (id : String) (rows : List Challenge) (c : Challenge)
    → Spent id rows
    → find? (challenge_by_id id) rows ≡ some c
    → is_used c ≡ true
Spent-found id [] c h e = cc
Spent-found id (x ∷ rows) c (h, hs) e = ground (arith, h, Spent-found id rows c hs)

All-select :
    {A : Type 0} (P : A → Type 0) (p : A → Bool) (rows : List A)
    → All P rows
    → All P (select p rows)
All-select P p [] h = tt
All-select P p (x ∷ rows) (h, hs) = elim (Bool-cases (p x)) [
  | inl yes' ↦ rw yes' (h, All-select P p rows hs)
  | inr other ↦ rw other (All-select P p rows hs)
]

absent-Spent :
    (id : String) (rows : List Challenge)
    → length (select (challenge_by_id id) rows) ≤ 0
    → Spent id rows
absent-Spent id [] h = tt
absent-Spent id (x ∷ rows) h = elim (Bool-cases (challenge_by_id id x)) [
  | inl here ↦ ground (arith, here, h)
  | inr other ↦ ((λ e. ground (arith, other, e)), absent-Spent id rows (ground (arith, other, h)))
]

-- The primary key: at most one challenge has the identifier.
spend-Spent :
    (id : String) (rows : List Challenge) (now : ℕ)
    → length (select (challenge_by_id id) rows) ≤ 1
    → Spent id (modify (challenge_by_id id) (use_challenge now) rows)
spend-Spent id [] now one = tt
spend-Spent id (x ∷ rows) now one = elim (Bool-cases (challenge_by_id id x)) [
  | inl here ↦ rw here ((λ e. refl), absent-Spent id rows (ground (arith, here, one)))
  | inr other ↦
      rw other
        ((λ e. ground (arith, other, e)), spend-Spent id rows now (ground (arith, other, one)))
]

-- The calls of the service that write challenges: `generateChallenge` and `exchangeToken`.
pub data AuthRequest : Type 0 where
  ask : (timeout : Option ℕ) (nonce : ℕ) (wallet : String) → AuthRequest
  exchange : (wallet signed id : String) → AuthRequest

module _ (client : PrismaClient) {C : Type 0} (auth : WebAuth) where
  -- What is left of the challenges, and the row that is added.
  abbrev kept : ℕ → World C → List Challenge
  kept now w = select (λ c. not (is_stale now c)) w.db.challenges

  ask-effects :
      (key : SigningKey) (timeout : Option ℕ) (nonce now : ℕ) (wallet : String) (w : World C)
      → let after = (generate_challenge client auth key timeout nonce now wallet w).1 in
        ((after.db.challenges ≡ w.db.challenges)
          ⊎ ((after.db.challenges ≡ kept now w)
              ⊎ ((transaction : String) × (expires_at : ℕ) × (after.db.challenges
                    ≡ kept now w
                      ++ new_challenge wallet transaction expires_at (client.cuid w.drawn) ∷ []))))
        × (w.drawn ≤ after.drawn)
  unfolding generate_challenge get_server_keypair
  ask-effects not_configured timeout nonce now wallet w =
      elim (Bool-cases (auth.is_valid_public_key wallet)) [
        | inl valid ↦ (inl (ground (arith, valid)), ground (arith, valid))
        | inr bad ↦ (inl (ground (arith, bad)), ground (arith, bad))
      ]
  ask-effects malformed timeout nonce now wallet w =
      elim (Bool-cases (auth.is_valid_public_key wallet)) [
        | inl valid ↦ (inl (ground (arith, valid)), ground (arith, valid))
        | inr bad ↦ (inl (ground (arith, bad)), ground (arith, bad))
      ]
  ask-effects (keypair server) timeout nonce now wallet w =
      let expires_at = now + challenge_timeout_seconds timeout * 1000 in
      let transaction = auth.build_challenge server wallet nonce in
      let row = new_challenge wallet transaction expires_at (client.cuid w.drawn) in
      let deleted = client.delete_many_lem Challenge (is_stale now) w.db.challenges in
      elim (Bool-cases (auth.is_valid_public_key wallet)) [
        | inr bad ↦ (inl (ground (arith, bad)), ground (arith, bad))
        | inl valid ↦ elim (Option-cases (find? (challenges.clash row) (kept now w))) [
          | inl free ↦
              let made = client.create_new Challenge challenges.clash row (kept now w) free in
              (
                inr (inr (transaction, expires_at, ground (arith, valid, deleted, made))),
                ground (arith, valid, deleted, made),
              )
          | inr (old, taken) ↦
              let made =
                client.create_clash Challenge challenges.clash row old (kept now w) taken in
              (
                inr (inl (ground (arith, valid, deleted, made))),
                ground (arith, valid, deleted, made),
              )
        ]
      ]

module _ (client : PrismaClient) {C : Type 0} (auth : WebAuth) (key : SigningKey)
    (sign : Claims → String) where
  -- Calls one after the other, each with its time.
  unfoldable pub serve_auth : List (ℕ × AuthRequest) → World C → World C
  serve_auth [] w = w
  serve_auth ((now, ask timeout nonce wallet) ∷ rest) w =
      serve_auth rest (generate_challenge client auth key timeout nonce now wallet w).1
  serve_auth ((now, exchange wallet signed id) ∷ rest) w =
      serve_auth rest (exchange_token client auth key sign now wallet signed id w).1

  exchange-challenges :
      (now : ℕ) (wallet signed id : String) (w : World C)
      → let after = (exchange_token client auth key sign now wallet signed id w).1.db in
        (after.challenges ≡ w.db.challenges)
        ⊎ (after.challenges ≡ modify (challenge_by_id id) (use_challenge now) w.db.challenges)
  exchange-challenges now wallet signed id w =
      elim (exchange_token-db client auth key sign now wallet signed id w) [
        | inl same ↦ inl (ap (λ (d : Db). d.challenges) same)
        | inr (inl used) ↦ inr (ap (λ (d : Db). d.challenges) used)
        | inr (inr new) ↦ inr (ap (λ (d : Db). d.challenges) new)
      ]

  exchange-draws :
      (now : ℕ) (wallet signed id : String) (w : World C)
      → let after = (exchange_token client auth key sign now wallet signed id w).1.drawn in
        (after ≡ w.drawn) ⊎ (after ≡ w.drawn + 1)
  unfolding exchange_token sign_in check_signed get_server_keypair
  exchange-draws now wallet signed id w =
      let p = challenge_by_id id in
      elim (Option-cases (find? p w.db.challenges)) [
        | inl missing ↦ inl (ground (arith, client.find_unique_lem Challenge p w.db.challenges))
        | inr (c, found) ↦ ground (
          arith,
          client.find_unique_lem Challenge p w.db.challenges,
          client.update_found Challenge p (use_challenge now) w.db.challenges c found,
          client.find_unique_lem User (user_by_pub wallet) w.db.users,
          client.create_new User users.clash (sign_up wallet (client.cuid w.drawn)) w.db.users,
        )
      ]

  exchange-drawn :
      (now : ℕ) (wallet signed id : String) (w : World C)
      → w.drawn ≤ (exchange_token client auth key sign now wallet signed id w).1.drawn
  exchange-drawn now wallet signed id w = elim (exchange-draws now wallet signed id w) [
    | inl same ↦ omega (arith, same)
    | inr one ↦ omega (arith, one)
  ]

  module _ (id : String) where
    -- The challenge is spent, and its identifier is not one of those drawn from now on.
    abbrev Done : World C → Type 0
    Done w = Spent id w.db.challenges × ((n : ℕ) → w.drawn ≤ n → str_eq (client.cuid n) id ≡ false)

    ask-Done :
        (timeout : Option ℕ) (nonce now : ℕ) (wallet : String) (w : World C)
        → Done w
        → Done (generate_challenge client auth key timeout nonce now wallet w).1
    ask-Done timeout nonce now wallet w (h, new) =
        let (rows, later) = ask-effects client auth key timeout nonce now wallet w in
        let old = All-select _ (λ c. not (is_stale now c)) w.db.challenges h in
        (
          elim rows [
            | inl same ↦ subst (Spent id) (sym same) h
            | inr (inl left) ↦ subst (Spent id) (sym left) old
            | inr (inr (transaction, expires_at, made)) ↦
                let row = new_challenge wallet transaction expires_at (client.cuid w.drawn) in
                let other = new w.drawn (omega arith) in
                subst (Spent id) (sym made) (
                  All-append _ (kept client auth now w) (row ∷ []) old
                    ((λ e. ground (arith, other, e)), tt))
          ],
          (λ n le. new n (omega (arith, le, later))),
        )

    exchange-Done :
        (now : ℕ) (wallet signed id' : String) (w : World C)
        → Done w
        → Done (exchange_token client auth key sign now wallet signed id' w).1
    exchange-Done now wallet signed id' w (h, new) =
        let rows = exchange-challenges now wallet signed id' w in
        let later = exchange-drawn now wallet signed id' w in
        (
          elim rows [
            | inl same ↦ subst (Spent id) (sym same) h
            | inr used ↦ subst (Spent id) (sym used) (
                All-modify _ (challenge_by_id id') (use_challenge now) w.db.challenges
                  (λ c k e. refl) h)
          ],
          (λ n le. new n (omega (arith, le, later))),
        )

    serve_auth-Done :
        (rest : List (ℕ × AuthRequest)) (w : World C) → Done w → Done (serve_auth rest w)
    unfolding serve_auth
    serve_auth-Done [] w h = h
    serve_auth-Done ((now, ask timeout nonce wallet) ∷ rest) w h =
        serve_auth-Done rest _ (ask-Done timeout nonce now wallet w h)
    serve_auth-Done ((now, exchange wallet signed id') ∷ rest) w h =
        serve_auth-Done rest _ (exchange-Done now wallet signed id' w h)

    -- If a challenge, which the database holds at most once and whose identifier is not drawn
    -- again, was exchanged for tokens, then after any sequence of new challenges and exchanges at
    -- any times an exchange of this challenge fails, with any wallet and any signed text, and
    -- changes nothing.
    pub exchange_token-single_use :
        (now later : ℕ) (wallet other signed signed' : String) (between : List (ℕ × AuthRequest))
        (w : World C)
        → length (select (challenge_by_id id) w.db.challenges) ≤ 1
        → ((n : ℕ) → w.drawn ≤ n → str_eq (client.cuid n) id ≡ false)
        → is_ok (exchange_token client auth key sign now wallet signed id w).0 ≡ true
        → let v =
            serve_auth between (exchange_token client auth key sign now wallet signed id w).1 in
          let x = exchange_token client auth key sign later other signed' id v in
          (is_ok x.0 ≡ false) × (x.1 ≡ v)
    exchange_token-single_use now later wallet other signed signed' between w one new passed =
        let p = challenge_by_id id in
        let w' = (exchange_token client auth key sign now wallet signed id w).1 in
        elim (Option-cases (find? p w.db.challenges)) [
          | inl missing ↦
              let (refused, _) =
                exchange_token-unknown client auth key sign now wallet signed id w missing in
              ground (arith, refused, passed)
          | inr (c, found) ↦
              let (_, _, rows) =
                exchange_token-passes client auth key sign now wallet signed id w c found passed in
              let spent = subst (Spent id) (sym rows) (spend-Spent id w.db.challenges now one) in
              let drawn = exchange-drawn now wallet signed id w in
              let v = serve_auth between w' in
              let (kept', _) =
                serve_auth-Done between w' (spent, λ n le. new n (omega (arith, le, drawn))) in
              elim (Option-cases (find? p v.db.challenges)) [
                | inl gone ↦
                    exchange_token-unknown client auth key sign later other signed' id v gone
                | inr (d, again) ↦
                    exchange_token-used client auth key sign later other signed' id v d again
                      (Spent-found id v.db.challenges d kept' again)
              ]
        ]
