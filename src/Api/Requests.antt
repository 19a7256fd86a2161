-- ===== src/Api/Requests.antt =====
-- The requests of a signed-in user about credits, offers, retirements, verifiers and the bridge, as
-- one type: what the controllers of api/src hand to the services, with the identifier and the wallet
-- of the user. The exchange of a challenge and the batch of certificates stand beside it, in System.
pub mod Effects
pub mod Integrity
pub mod Lifecycle
mod Tests
use carbon_veritas.Base.{ℕ, String, Option, none, some, List, [], ◌∷◌}
use carbon_veritas.Store.Schema.{User, user_by_id}
use carbon_veritas.Store.Prisma.{PrismaClient}
use carbon_veritas.Store.Action.{World}
use carbon_veritas.Api.Stellar.{Stellar, Call}
use carbon_veritas.Api.Marketplace.{CreateOfferDto, create_offer, buy_credits, cancel_offer}
use carbon_veritas.Api.Credits.{CreateCreditDto, issue_credit, approve_credit, reject_credit}
use carbon_veritas.Api.Retirement.{RetireCreditDto, retire_credit}
use carbon_veritas.Api.Verifiers.{register, heartbeat}
use carbon_veritas.Api.Bridge.{BridgeInDto, bridge_in, bridge_out}

pub data Request : Type 0 where
  issue : CreateCreditDto → Request
  approve : (credit_id : ℕ) → Option String → Request
  reject : (credit_id : ℕ) → String → Request
  sell : CreateOfferDto → Request
  buy : (offer_id amount : ℕ) → Request
  cancel : (offer_id : ℕ) → Request
  retire : (credit_id : ℕ) → RetireCreditDto → Request
  enroll : (stake : ℕ) → Request
  report : (id : String) → Request
  import : BridgeInDto → Request
  export : (credit_id : ℕ) → Request

-- What the services take from outside: the database, the chain, IPFS, upper case, the parsing of dates and
-- numbers, and the two settings of the votes.
pub record Service (C : Type 0) : Type 1 where
  pub client : PrismaClient
  pub stellar : Stellar C
  pub pin_json : CreateCreditDto → Call C String
  pub upper : String → String
  pub date : String → ℕ
  pub number : String → Option ℕ
  pub threshold : ℕ
  pub quorum : ℕ

-- One request, at a time, of a user. Its answer is left out.
module _ {C : Type 0} (s : Service C) (now : ℕ) (user_id wallet : String) where
  unfoldable pub serve : Request → World C → World C
  serve (issue dto) w =
      (issue_credit s.client s.stellar s.upper s.date s.pin_json user_id wallet dto w).1
  serve (approve n comments) w =
      (approve_credit s.client s.stellar s.threshold user_id wallet n comments w).1
  serve (reject n reason) w =
      (reject_credit s.client s.stellar s.quorum user_id wallet n reason w).1
  serve (sell dto) w = (create_offer s.client s.stellar now user_id wallet dto w).1
  serve (buy n amount) w = (buy_credits s.client s.stellar now user_id wallet n amount w).1
  serve (cancel n) w = (cancel_offer s.client s.stellar user_id n w).1
  serve (retire n dto) w = (retire_credit s.client s.stellar s.number now user_id wallet n dto w).1
  serve (enroll stake) w = (register s.client s.stellar now user_id wallet stake w).1
  serve (report id) w = (heartbeat s.client s.stellar now id w).1
  serve (import dto) w = (bridge_in s.client s.stellar user_id wallet dto w).1
  serve (export n) w = (bridge_out s.client s.stellar user_id wallet n w).1

-- `JwtStrategy.validate`, then the service: a token whose user is not in the database is refused,
-- and the wallet is the one of the database.
module _ {C : Type 0} (s : Service C) where
  unfoldable pub handle : ℕ → String → Request → World C → World C
  handle now sub r w = elim (s.client.find_unique User (user_by_id sub) w.db.users) [
    | none ↦ w
    | some user ↦ serve s now user.id user.stellar_pub r w
  ]

  -- Requests one after the other, each with its time and the user of its token.
  unfoldable pub handle_all : List (ℕ × String × Request) → World C → World C
  handle_all [] w = w
  handle_all ((now, sub, r) ∷ rest) w = handle_all rest (handle now sub r w)
