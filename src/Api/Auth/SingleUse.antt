-- ===== src/Api/Auth/SingleUse.antt =====
-- When an exchange succeeds; a signed transaction is not tied to one challenge.
use carbon_veritas.Base.{
  ℕ, ◌≡◌, String, Bool, true, false, none, some, arith, str_eq, ltb, eq_iff, eq_refl,
}
use carbon_veritas.Store.Rows.{find?, modify}
use carbon_veritas.Store.Schema.{User, Challenge, challenge_by_id, user_by_pub}
use carbon_veritas.Store.Prisma.{PrismaClient}
use carbon_veritas.Store.Action.{World, Result, ok, err, users}
use carbon_veritas.Api.Auth.{
  WebAuth, SigningKey, Claims, is_used, use_challenge, sign_up, exchange_token, check_signed,
  sign_in, get_server_keypair,
}

abbrev pub is_ok : {A : Type 0} → Result A → Bool
is_ok (ok _) = true
is_ok (err _) = false

module _ (client : PrismaClient) {C : Type 0} (auth : WebAuth) (key : SigningKey)
    (sign : Claims → String) where
  pub exchange_token-passes :
      (now : ℕ) (wallet signed id : String) (w : World C) (c : Challenge)
      → find? (challenge_by_id id) w.db.challenges ≡ some c
      → let x = exchange_token client auth key sign now wallet signed id w in
        is_ok x.0 ≡ true
        → (auth.is_valid_public_key wallet ≡ true)
          × (c.wallet ≡ wallet)
          × (x.1.db.challenges ≡ modify (challenge_by_id id) (use_challenge now) w.db.challenges)
  unfolding exchange_token sign_in check_signed
  exchange_token-passes now wallet signed id w c found passed = ground (
    arith,
    eq_iff c.wallet wallet,
    client.find_unique_lem Challenge (challenge_by_id id) w.db.challenges,
    client.update_found Challenge (challenge_by_id id) (use_challenge now) w.db.challenges c found,
    client.find_unique_lem User (user_by_pub wallet) w.db.users,
    client.create_new User users.clash (sign_up wallet (client.cuid w.drawn)) w.db.users,
  )

  pub exchange_token-unknown :
      (now : ℕ) (wallet signed id : String) (w : World C)
      → find? (challenge_by_id id) w.db.challenges ≡ none
      → let x = exchange_token client auth key sign now wallet signed id w in
        (is_ok x.0 ≡ false) × (x.1 ≡ w)
  unfolding exchange_token
  exchange_token-unknown now wallet signed id w missing =
      ground (arith, client.find_unique_lem Challenge (challenge_by_id id) w.db.challenges)

  pub exchange_token-used :
      (now : ℕ) (wallet signed id : String) (w : World C) (c : Challenge)
      → find? (challenge_by_id id) w.db.challenges ≡ some c
      → is_used c ≡ true
      → let x = exchange_token client auth key sign now wallet signed id w in
        (is_ok x.0 ≡ false) × (x.1 ≡ w)
  unfolding exchange_token
  exchange_token-used now wallet signed id w c found used =
      ground (arith, client.find_unique_lem Challenge (challenge_by_id id) w.db.challenges)

  -- The checks of the signed transaction do not depend on the database.
  check_signed-passed :
      (now : ℕ) (wallet signed id : String) (w v : World C)
      → is_ok (exchange_token client auth key sign now wallet signed id w).0 ≡ true
      → check_signed client auth key now wallet signed v ≡ (ok tt, v)
  unfolding exchange_token check_signed get_server_keypair
  check_signed-passed now wallet signed id w v passed =
      ground (arith, client.find_unique_lem Challenge (challenge_by_id id) w.db.challenges)

  sign_in-ok : (wallet : String) (w : World C) → is_ok (sign_in client auth key wallet w).0 ≡ true
  unfolding sign_in
  sign_in-ok wallet w = ground (
    arith,
    client.find_unique_lem User (user_by_pub wallet) w.db.users,
    client.create_new User users.clash (sign_up wallet (client.cuid w.drawn)) w.db.users,
  )

  exchange_token-accepts :
      (now : ℕ) (wallet signed id : String) (w : World C) (c : Challenge)
      → auth.is_valid_public_key wallet ≡ true
      → find? (challenge_by_id id) w.db.challenges ≡ some c
      → str_eq c.wallet wallet ≡ true
      → is_used c ≡ false
      → ltb c.expires_at now ≡ false
      → check_signed client auth key now wallet signed w ≡ (ok tt, w)
      → is_ok (exchange_token client auth key sign now wallet signed id w).0 ≡ true
  unfolding exchange_token
  exchange_token-accepts now wallet signed id w c valid found own unused fresh checked =
      let rows = modify (challenge_by_id id) (use_challenge now) w.db.challenges in
      ground (
        arith,
        client.find_unique_lem Challenge (challenge_by_id id) w.db.challenges,
        client.update_found Challenge (challenge_by_id id) (use_challenge now) w.db.challenges c
            found,
        sign_in-ok wallet (record w { db = record w.db { challenges = rows } }),
      )

  exchange_token-valid :
      (now : ℕ) (wallet signed id : String) (w : World C)
      → is_ok (exchange_token client auth key sign now wallet signed id w).0 ≡ true
      → auth.is_valid_public_key wallet ≡ true
  unfolding exchange_token
  exchange_token-valid now wallet signed id w passed = ground arith

  -- A signed text that was accepted for one challenge is accepted at the same time for any other
  -- stored challenge of the wallet that is unused and not expired, whatever transaction that
  -- challenge was issued with.
  pub signed_challenge-reused :
      (now : ℕ) (wallet signed id id' : String) (w : World C) (c : Challenge)
      → is_ok (exchange_token client auth key sign now wallet signed id w).0 ≡ true
      → let w' = (exchange_token client auth key sign now wallet signed id w).1 in
        find? (challenge_by_id id') w'.db.challenges ≡ some c
        → c.wallet ≡ wallet
        → is_used c ≡ false
        → ltb c.expires_at now ≡ false
        → is_ok (exchange_token client auth key sign now wallet signed id' w').0 ≡ true
  signed_challenge-reused now wallet signed id id' w c passed found same unused fresh =
      let w' = (exchange_token client auth key sign now wallet signed id w).1 in
      exchange_token-accepts now wallet signed id' w' c
        (exchange_token-valid now wallet signed id w passed) found (rw same (eq_refl wallet)) unused
        fresh (check_signed-passed now wallet signed id w w' passed)
