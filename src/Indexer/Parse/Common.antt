-- ===== src/Indexer/Parse/Common.antt =====
-- What the cases of `parseRpcEvent` share: the topic and the hash of the transaction.
use carbon_veritas.Base.{
  ℕ, zero, suc, String, Bool, false, Option, none, some, List, [], ◌∷◌, or_else, str_eq,
}
use carbon_veritas.Indexer.Fetch.{RpcEvent}
use carbon_veritas.Indexer.Json.{Json, bool, str, Conversions, ◌//◌, get, text_or}

-- `topic[n]`
abbrev pub topic_at : ℕ → List Json → Option Json
topic_at n [] = none
topic_at zero (j ∷ js) = some j
topic_at (suc n) (j ∷ js) = topic_at n js

-- `topic[0]` as the label of a `case`; no label is the empty string.
abbrev pub topic_name : List Json → String
topic_name (str s ∷ js) = s
topic_name js = ""

-- `v.approved === true || v.approved === 'true'`
unfoldable pub is_true : Option Json → Bool
is_true (some (bool b)) = b
is_true (some (str s)) = str_eq s "true"
is_true v = false

abbrev pub own_hash : RpcEvent Json → Option Json
own_hash ev = elim ev.tx_hash [ none ↦ none | some h ↦ some (str h) ]

-- `Number(rpcEvent.ledger ?? 0)`
abbrev pub ledger_number : RpcEvent Json → ℕ
ledger_number ev = or_else ev.ledger 0

-- `String(rpcEvent.txHash ?? v.txHash ?? '')`
abbrev pub hash_of : Conversions → RpcEvent Json → Json → Option String
hash_of js ev v = text_or js (own_hash ev // get v "txHash") ""
