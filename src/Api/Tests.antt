-- ===== src/Api/Tests.antt =====
-- The services on a small database, and the theorems about them at concrete inputs.
use carbon_veritas.Api.Samples.{receipt, agreeing}
use Prim.Native.Char.{code}
use carbon_veritas.Base.{
  ℕ, zero, suc, ◌≤◌, ◌≡◌, ◌⊎◌, inl, inr, refl, ap, Bool-cases, eq_iff, String, true, false, none,
  some, List, [], ◌∷◌, arith, leb, if◌then◌else◌, ◌==◌, str_eq,
}
use carbon_veritas.Store.Rows.{find?, modify}
use carbon_veritas.Store.Schema.{
  Trade, Challenge, CreditStatus, credit_by_number, credit_by_id, offer_by_number, BridgeRecord,
  BridgeStatus,
}
use carbon_veritas.Store.Action.{World, ok}
use carbon_veritas.Store.ListClient.{numbered, list_client}
use carbon_veritas.Store.Samples.{forest, solar, listing, sample_db, sample_world}
use carbon_veritas.Api.Marketplace.{purchase, fill_offer, give_credit, buy_credits}
use carbon_veritas.Api.Marketplace.Bounds.{
  IsSound, MarketRequest, buy, cancel, serve_market, serve_market-IsSound,
}
use carbon_veritas.Api.Marketplace.Effects.{buy_credits-writes}
use carbon_veritas.Api.Credits.{decision, activate, approve_credit, reject_credit}
use carbon_veritas.Api.Credits.Votes.{approve_credit-votes, reject_credit-votes}
use carbon_veritas.Api.Credits.Once.{
  VotesOnce, VoteRequest, approve, serve_votes, serve_votes-VotesOnce,
}
use carbon_veritas.Api.Retirement.{
  RetireCreditDto, retired_tonnes, retirement_row, retire_all, retire_credit,
}
use carbon_veritas.Api.Retirement.Effects.{retire_credit-guarded}
use carbon_veritas.Api.Webhooks.{Dispatched, deliver_with_retry, max_attempts}
use carbon_veritas.Api.Webhooks.Retries.{Delivered, deliver_with_retry-Delivered}
use carbon_veritas.Api.Auth.{WebAuth, keypair, Claims, exchange_token}
use carbon_veritas.Api.Auth.SingleUse.{is_ok, signed_challenge-reused}
use carbon_veritas.Api.Auth.Spent.{
  AuthRequest, ask, exchange, serve_auth, exchange_token-single_use,
}
use carbon_veritas.Api.Reporting.{RetirementRow, build_summary, or_unknown}
use carbon_veritas.Api.Reporting.Totals.{Breakdown, build_summary-Breakdown}
use carbon_veritas.Api.Bridge.{bridge_out, send_out}
use carbon_veritas.Api.Bridge.Outbound.{bridge_out-guarded}
use carbon_veritas.Api.Verifiers.Registration.{
  RegisteredOnce, VerifierRequest, enroll, report, serve_verifiers, serve_verifiers-RegisteredOnce,
}

sample-IsSound : IsSound sample_world.db.offers
sample-IsSound = ((omega arith, tt), λ c s. ground arith)

abbrev market_day : List (ℕ × MarketRequest)
market_day = (5, buy "bob" "GBOB" 1 70) ∷ (6, cancel "ann" 1) ∷ []

serve_market-IsSound_example :
    IsSound (serve_market list_client agreeing market_day sample_world).db.offers
serve_market-IsSound_example =
    serve_market-IsSound list_client agreeing market_day sample_world sample-IsSound

buy_credits-writes_example :
    (trade : Trade) × (w' : World (Unit {0})) × (buy_credits list_client agreeing 5 "bob" "GBOB" 1
        70 sample_world
      ≡ (ok trade, w'))
    × (w'.db.trades ≡ trade ∷ [])
    × (trade ≡ purchase listing "bob" 70 840 "k1" "")
    × (find? (offer_by_number 1) w'.db.offers ≡ some (fill_offer 100 true listing))
    × (find? (credit_by_id "k1") w'.db.credits ≡ some (give_credit "bob" forest))
    × (w'.db.users ≡ sample_db.users)
buy_credits-writes_example =
    buy_credits-writes list_client agreeing 5 "bob" "GBOB" 1 70 sample_world listing forest tt tt
      true refl refl refl refl (omega arith) refl refl refl

abbrev whole : RetireCreditDto
whole = record {
  beneficiary = "Acme";
  reason = "offset";
  accounting_period = "2024";
  tonnes_retired = none;
}

retire_credit-guarded_example :
    let after =
      (retire_credit list_client agreeing (λ s. some 0) 5 "ann" "GANN" 1 whole sample_world).1.db in
    ((after.retirements ≡ []) × (after.credits ≡ sample_db.credits))
    ⊎ ((t : ℕ) × (retired_tonnes (λ s. some 0) whole.tonnes_retired 100 ≡ some t)
        × (forest.owner_id ≡ "ann")
        × (forest.status ≡ CreditStatus.active)
        × (1 ≤ t)
        × (t ≤ 100)
        × (after.retirements ≡ retirement_row whole forest "ann" t receipt 5 "" ∷ [])
        × (after.credits ≡ (
            if leb 100 t
            then modify (credit_by_number 1) retire_all sample_db.credits
            else sample_db.credits)))
retire_credit-guarded_example =
    retire_credit-guarded list_client agreeing (λ s. some 0) 5 "ann" "GANN" 1 whole sample_world
      forest receipt refl refl

approve_credit-votes_example :
    let after = (approve_credit list_client agreeing 1 "bob" "GBOB" 2 none sample_world).1.db in
    ((after.approvals ≡ []) × (after.credits ≡ sample_db.credits))
    ⊎ ((true ≡ true)
        × (true ≡ true)
        × (false ≡ false)
        × (after.approvals ≡ decision solar "bob" true none "" ∷ [])
        × (after.credits ≡ modify (credit_by_number 2) (activate (some "tx")) sample_db.credits))
approve_credit-votes_example =
    approve_credit-votes list_client agreeing 1 "bob" "GBOB" 2 none sample_world solar (some "tx")
      refl refl

reject_credit-votes_example :
    let after = (reject_credit list_client agreeing 3 "bob" "GBOB" 2 "no" sample_world).1.db in
    ((after.approvals ≡ []) × (after.credits ≡ sample_db.credits))
    ⊎ ((true ≡ true)
        × (true ≡ true)
        × (false ≡ false)
        × (after.approvals ≡ decision solar "bob" false (some "no") "" ∷ [])
        × (after.credits ≡ sample_db.credits))
reject_credit-votes_example =
    reject_credit-votes list_client agreeing 3 "bob" "GBOB" 2 "no" sample_world solar true refl refl

abbrev votes : List VoteRequest
votes = approve "bob" "GBOB" 2 none ∷ approve "bob" "GBOB" 2 none ∷ []

serve_votes-VotesOnce_example :
    VotesOnce (serve_votes list_client agreeing 2 3 votes sample_world).db.approvals
serve_votes-VotesOnce_example =
    serve_votes-VotesOnce list_client agreeing 2 3 votes sample_world
      λ c v. (omega arith, omega arith)

-- A server that answers 503 once, then 200.
abbrev recovering : ℕ → Dispatched
recovering attempt = record { status = if leb attempt 1 then 503 else 200; error = none }

deliver_with_retry-Delivered_example :
    (max_attempts none ≤ 5)
    × Delivered
        (λ status. "HTTP")
        recovering
        1
        (max_attempts none)
        (deliver_with_retry (λ status. "HTTP") none none recovering)
deliver_with_retry-Delivered_example =
    deliver_with_retry-Delivered (λ status. "HTTP") none none recovering

abbrev trusting : WebAuth
trusting = record {
  is_valid_public_key = λ wallet. true;
  build_challenge = λ server wallet nonce. "xdr";
  verify_signers = λ signed server wallet. some (wallet ∷ []);
  read_challenge = λ signed server. some "GANN";
  from_xdr = λ signed. some none;
}

abbrev asked : Challenge
asked = record { id = "c1"; wallet = "GANN"; transaction = "x1"; expires_at = 300; used_at = none }

abbrev asked_again : Challenge
asked_again = record asked { id = "c2"; transaction = "x2" }

abbrev auth_world : World (Unit {0})
auth_world = record sample_world { db = record sample_db { challenges = asked ∷ asked_again ∷ [] } }

abbrev plain : Claims → String
plain c = c.sub

abbrev first_exchange : World (Unit {0})
first_exchange =
    (exchange_token list_client trusting (keypair "S") plain 5 "GANN" "signed" "c1" auth_world).1

-- Another exchange and a new challenge in between.
abbrev between : List (ℕ × AuthRequest)
between = (6, exchange "GANN" "signed" "c2") ∷ (7, ask none 1 "GANN") ∷ []

abbrev first_code : String → ℕ
first_code String.[] = 0
first_code (String.◌∷◌ c s) = code c

abbrev second_code : String → ℕ
second_code String.[] = 0
second_code (String.◌∷◌ c s) = first_code s

not_drawn : (n : ℕ) → str_eq (numbered n) "c1" ≡ false
not_drawn zero = refl
not_drawn (suc zero) = refl
not_drawn (suc (suc n)) = elim (Bool-cases (str_eq (numbered (suc (suc n))) "c1")) [
  | inr other ↦ other
  | inl same ↦
      let k : second_code (numbered (suc (suc n))) ≡ 49 =
        ap second_code ((eq_iff (numbered (suc (suc n))) "c1").0 same) in
      ground (arith, k)
]

exchange_token-single_use_example :
    let v = serve_auth list_client trusting (keypair "S") plain between first_exchange in
    let x = exchange_token list_client trusting (keypair "S") plain 8 "GANN" "other" "c1" v in
    (is_ok x.0 ≡ false) × (x.1 ≡ v)
unfolding exchange_token
exchange_token-single_use_example =
    exchange_token-single_use list_client trusting (keypair "S") plain "c1" 5 8 "GANN" "GANN"
      "signed" "other" between auth_world (omega arith) (λ n _. not_drawn n) refl

signed_challenge-reused_example :
    is_ok
      (exchange_token list_client trusting
        (keypair "S")
        plain
        5
        "GANN"
        "signed"
        "c2"
        first_exchange).0
    ≡ true
unfolding exchange_token
signed_challenge-reused_example =
    signed_challenge-reused list_client trusting (keypair "S") plain 5 "GANN" "signed" "c1" "c2"
      auth_world asked_again refl refl refl refl refl

abbrev offset_row : RetirementRow
offset_row = record {
  tonnes_retired = 40;
  credit_id = 1;
  methodology = "";
  geography = "BR";
  vintage = 2020;
}

abbrev offsets : List RetirementRow
offsets = offset_row ∷ record offset_row { tonnes_retired = 60; methodology = "VM0007" } ∷ []

build_summary-Breakdown_example :
    Breakdown str_eq (λ r. or_unknown r.methodology) offsets (build_summary offsets).by_methodology
    × Breakdown str_eq (λ r. or_unknown r.geography) offsets (build_summary offsets).by_geography
    × Breakdown (λ a b. a == b) (λ r. r.vintage) offsets (build_summary offsets).by_vintage
build_summary-Breakdown_example = build_summary-Breakdown offsets

abbrev imported : BridgeRecord
imported = record {
  id = "b1";
  credit_id = 1;
  source_registry = "VERRA";
  source_serial = "VCS-1";
  merkle_root = "ab";
  status = BridgeStatus.inbound;
  bridger_id = "ann";
  tx_hash = "t0";
}

abbrev bridge_world : World (Unit {0})
bridge_world = record sample_world { db = record sample_db { bridge_records = imported ∷ [] } }

bridge_out-guarded_example :
    let after = (bridge_out list_client agreeing "ann" "GANN" 1 bridge_world).1.db in
    (after ≡ bridge_world.db)
    ⊎ ((forest.owner_id ≡ "ann")
        × (imported.status ≡ BridgeStatus.inbound)
        × (after.bridge_records ≡ send_out "tx" imported ∷ [])
        × (after.credits ≡ sample_db.credits))
bridge_out-guarded_example =
    bridge_out-guarded list_client agreeing "ann" "GANN" 1 bridge_world forest imported "tx" refl
      refl refl refl

abbrev enrolments : List (ℕ × VerifierRequest)
enrolments = (5, enroll "ann" "GANN" 500) ∷ (6, enroll "ann" "GANN" 900) ∷ (7, report "v1") ∷ []

serve_verifiers-RegisteredOnce_example :
    RegisteredOnce (serve_verifiers list_client agreeing enrolments sample_world).db.verifiers
serve_verifiers-RegisteredOnce_example =
    serve_verifiers-RegisteredOnce list_client agreeing enrolments sample_world λ u. ground arith
