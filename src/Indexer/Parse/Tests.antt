-- ===== src/Indexer/Parse/Tests.antt =====
-- An event that is read, and one that is not.
use carbon_veritas.Base.{
  ◌≡◌, refl, sym, ◌∙◌, ap, Bool-cases, inl, inr, eq_iff, none, some, [], ◌∷◌, ℕ, zero, suc, ◌-◌,
  String, Option, false, str_eq, arith,
}
use carbon_veritas.Indexer.Fetch.{RpcEvent, SyncCursor}
use carbon_veritas.Indexer.Json.{Json, str, num, Conversions, truthy}
use carbon_veritas.Indexer.Events.{SyncEvent, offer_created}
use carbon_veritas.Indexer.Parse.{parse_rpc_event, parse_value}
use carbon_veritas.Indexer.Parse.Encode.{camel, encode, Publishable}
use carbon_veritas.Indexer.Parse.RoundTrip.{parse-encode}

abbrev no_conversions : Conversions
no_conversions = record { number_of = λ j. none; string_of = λ j. none }

abbrev listed : SyncEvent
listed = offer_created (record {
  offer_id = 4;
  seller = "GA";
  credit_id = 1;
  price_per_tonne = 12;
  amount = 30;
  currency = "USDC";
  expires_at = some 99;
  timestamp = 7;
  tx_hash = "h";
})

-- Numbers written in tally marks, one more than the number.
abbrev pub tally : ℕ → String
tally zero = "|"
tally (suc n) = String.◌∷◌ "|" (tally n)

abbrev marks : String → ℕ
marks String.[] = 0
marks (String.◌∷◌ c s) = suc (marks s)

abbrev read_tally : Json → Option ℕ
read_tally (str s) = some (marks s - 1)
read_tally j = none

abbrev pub tallies : Conversions
tallies = record { number_of = read_tally; string_of = λ j. none }

marks-tally : (n : ℕ) → marks (tally n) ≡ suc n
marks-tally zero = refl
marks-tally (suc n) = ap suc (marks-tally n)

pub read_tally-tally : (n : ℕ) → read_tally (str (tally n)) ≡ some n
read_tally-tally n = rw (marks-tally n) (ap some (omega arith))

pub tally-full : (n : ℕ) → str_eq (tally n) "" ≡ false
tally-full n = elim (Bool-cases (str_eq (tally n) "")) [
  | inr full ↦ full
  | inl empty ↦
      let k : suc n ≡ 0 = sym (marks-tally n) ∙ ap marks ((eq_iff (tally n) "").0 empty) in cc
]

abbrev far : SyncCursor
far = record { ledger_sequence = 10; tx_index = 3 }

parse-encode_example : parse_rpc_event tallies (encode tally far camel listed) ≡ some listed
unfolding Publishable
parse-encode_example = parse-encode tallies tally read_tally-tally tally-full far camel listed tt

-- A topic that no case names.
abbrev stray : RpcEvent Json
stray = record {
  ledger = some 7;
  tx_index = none;
  in_successful_contract_call = none;
  tx_hash = none;
  topic = some (str "paused" ∷ []);
  value = some (num 1);
}

stray_unread : parse_rpc_event no_conversions stray ≡ none
unfolding parse_rpc_event truthy parse_value
stray_unread = refl
