-- ===== src/Api/Verifiers.antt =====
-- `VerifiersService`, api/src/verifiers/verifiers.service.ts: registration and heartbeats.
pub mod Registration
use carbon_veritas.Base.{String, ℕ, Bool, true, false, not, Option, none, some, str_eq}
use carbon_veritas.Store.Schema.{Verifier, VerifierStatus, verifier_by_id}
use carbon_veritas.Store.Prisma.{PrismaClient}
use carbon_veritas.Store.Action.{
  Action, pure, throw_if, or_throw, emit, ◌>>=◌, ◌>>◌, verifiers, find_unique, find_first, create,
  update, not_found, bad_request,
}
use carbon_veritas.Api.Stellar.{Stellar, call}

abbrev pub is_registered : Option Verifier → Bool
is_registered none = false
is_registered (some _) = true

abbrev pub of_user : String → Verifier → Bool
of_user user_id v = str_eq v.user_id user_id

abbrev pub new_verifier : String → ℕ → ℕ → String → Verifier
new_verifier user_id stake now id = record {
  id = id;
  user_id = user_id;
  status = VerifierStatus.active;
  stake = stake;
  reputation = 0;
  heartbeat_at = some now;
}

abbrev pub beat : ℕ → Verifier → Verifier
beat now v = record v { heartbeat_at = some now }

module _ (client : PrismaClient) {C : Type 0} (stellar : Stellar C) where
  -- The event's subject is the stake.
  unfoldable pub register : ℕ → String → String → ℕ → Action C Verifier
  register now user_id wallet stake = do
    existing ← find_first client verifiers (of_user user_id)
    throw_if (is_registered existing) (bad_request "Already registered as a verifier")
    success ← call (stellar.register_verifier wallet stake)
    throw_if (not success) (bad_request "On-chain verifier registration failed")
    verifier ← create client verifiers (new_verifier user_id stake now)
    emit "verifier.registered" stake
    pure verifier

  unfoldable pub heartbeat : ℕ → String → Action C Verifier
  heartbeat now id = do
    found ← find_unique client verifiers (verifier_by_id id)
    verifier ← or_throw found (not_found "Verifier not found")
    update client verifiers (verifier_by_id id) (beat now)
