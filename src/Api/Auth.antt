-- ===== src/Api/Auth.antt =====
-- `AuthService`, api/src/auth/auth.service.ts: SEP-10 challenges and tokens. The Stellar SDK and
-- the JWT library are interfaces; `now` is the clock in milliseconds.
pub mod SingleUse
pub mod Spent
pub mod Integrity
use carbon_veritas.Base.{
  ℕ, ◌+◌, ◌*◌, ◌/◌, String, Bool, true, false, not, ◌||◌, Option, none, some, List, ltb, str_eq,
  or_else, if◌then◌else◌,
}
use carbon_veritas.Store.Rows.{exists?}
use carbon_veritas.Store.Schema.{User, Challenge, challenge_by_id, user_by_pub}
use carbon_veritas.Store.Prisma.{PrismaClient}
use carbon_veritas.Store.Action.{
  Action, ok, err, pure, throw_if, or_throw, ◌>>=◌, ◌>>◌, users, challenges, find_unique, create,
  update, delete_many, bad_request, unauthorized, upstream,
}

-- What the code calls of `@stellar/stellar-sdk`, for the service's network and home domain: a
-- result of `none` is an exception.
pub record WebAuth : Type 0 where
  pub is_valid_public_key : String → Bool
  -- server, wallet, a number that is new with each call
  pub build_challenge : String → String → ℕ → String
  -- signed challenge, server, wallet
  pub verify_signers : String → String → String → Option (List String)
  -- signed challenge, server: the account that the challenge is for
  pub read_challenge : String → String → Option String
  -- the bound `maxTime` of a transaction, in seconds
  pub from_xdr : String → Option (Option ℕ)

pub data SigningKey : Type 0 where
  not_configured malformed : SigningKey
  keypair : String → SigningKey

pub record Tokens : Type 0 where
  pub access_token : String
  pub refresh_token : String

pub record Claims : Type 0 where
  pub sub : String
  pub wallet : String
  pub kind : Option String

abbrev pub is_used : Challenge → Bool
is_used c = elim c.used_at [ none ↦ false | some _ ↦ true ]

abbrev pub is_stale : ℕ → Challenge → Bool
is_stale now c = ltb c.expires_at now || is_used c

abbrev pub new_challenge : String → String → ℕ → String → Challenge
new_challenge wallet transaction expires_at id = record {
  id = id;
  wallet = wallet;
  transaction = transaction;
  expires_at = expires_at;
  used_at = none;
}

abbrev pub use_challenge : ℕ → Challenge → Challenge
use_challenge now c = record c { used_at = some now }

abbrev pub sign_up : String → String → User
sign_up wallet id = record { id = id; stellar_pub = wallet }

abbrev pub bound_passed : ℕ → Option ℕ → Bool
bound_passed now none = false
bound_passed now (some max_time) = ltb max_time (now / 1000)

module _ {C : Type 0} where
  unfoldable pub get_server_keypair : SigningKey → Action C String
  get_server_keypair not_configured w = (err (unauthorized "SEP-10 signing key not configured"), w)
  get_server_keypair malformed w = (err (unauthorized "Invalid SEP-10 signing key"), w)
  get_server_keypair (keypair public) w = (ok public, w)

-- `getChallengeTimeoutSeconds`; `none` is a number that is not finite.
unfoldable pub challenge_timeout_seconds : Option ℕ → ℕ
challenge_timeout_seconds none = 300
challenge_timeout_seconds (some parsed) = if ltb 0 parsed then parsed else 300

module _ (client : PrismaClient) {C : Type 0} (auth : WebAuth) (key : SigningKey) where
  unfoldable pub generate_challenge : Option ℕ → ℕ → ℕ → String → Action C Challenge
  unfolding get_server_keypair challenge_timeout_seconds
  generate_challenge timeout nonce now wallet = do
    throw_if (not (auth.is_valid_public_key wallet)) (bad_request "Invalid Stellar public key")
    server ← get_server_keypair key
    let timeout_seconds = challenge_timeout_seconds timeout
    let transaction = auth.build_challenge server wallet nonce
    delete_many client challenges (is_stale now)
    create client challenges (new_challenge wallet transaction (now + timeout_seconds * 1000))

  -- The checks of the signed transaction, which touch no row.
  unfoldable pub check_signed : ℕ → String → String → Action C (Unit {0})
  unfolding get_server_keypair
  check_signed now wallet signed = do
    server ← get_server_keypair key
    verified_signers ←
        or_throw (auth.verify_signers signed server wallet)
          (unauthorized "Invalid challenge signature")
    throw_if (not (exists? (λ s. str_eq s wallet) verified_signers))
        (unauthorized "Challenge was not signed by this wallet")
    client_account ←
        or_throw (auth.read_challenge signed server) (unauthorized "Invalid challenge transaction")
    throw_if (not (str_eq client_account wallet))
        (unauthorized "Challenge transaction is not bound to this wallet")
    max_time ← or_throw (auth.from_xdr signed) (upstream "xdr")
    throw_if (bound_passed now max_time) (unauthorized "Challenge has expired")

  -- Find or create the user of a wallet.
  unfoldable pub sign_in : String → Action C User
  sign_in wallet w = elim (client.find_unique User (user_by_pub wallet) w.db.users) [
    | some user ↦ (ok user, w)
    | none ↦ create client users (sign_up wallet) w
  ]

  unfoldable pub exchange_token : (Claims → String) → ℕ → String → String → String → Action C Tokens
  unfolding check_signed sign_in
  exchange_token sign now wallet signed challenge_id = do
    throw_if (not (auth.is_valid_public_key wallet)) (bad_request "Invalid Stellar public key")
    found ← find_unique client challenges (challenge_by_id challenge_id)
    challenge ← or_throw found (unauthorized "Unknown challenge")
    throw_if (not (str_eq challenge.wallet wallet))
        (unauthorized "Challenge belongs to a different wallet")
    throw_if (is_used challenge) (unauthorized "Challenge has already been used")
    throw_if (ltb challenge.expires_at now) (unauthorized "Challenge has expired")
    check_signed now wallet signed
    update client challenges (challenge_by_id challenge_id) (use_challenge now)
    user ← sign_in wallet
    pure (record {
      access_token = sign (record { sub = user.id; wallet = wallet; kind = none });
      refresh_token = sign (record { sub = user.id; wallet = wallet; kind = some "refresh" });
    })

-- `verify` is `jwtService.verify`; every exception becomes the last one.
unfoldable pub refresh_token :
    {C : Type 0} → (Claims → String) → (String → Option Claims) → String → Action C Tokens
refresh_token sign verify token w = elim (verify token) [
  | none ↦ (err (unauthorized "Invalid or expired refresh token"), w)
  | some decoded ↦
      if str_eq (or_else decoded.kind "") "refresh"
      then (
        ok (record {
          access_token = sign (record decoded { kind = none });
          refresh_token = sign (record decoded { kind = some "refresh" });
        }),
        w,
      )
      else (err (unauthorized "Invalid or expired refresh token"), w)
]
