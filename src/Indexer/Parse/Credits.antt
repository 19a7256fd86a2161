-- ===== src/Indexer/Parse/Credits.antt =====
-- The cases of `parseRpcEvent` for the life of a credit.
use carbon_veritas.Base.{String, Option, none, some, if◌then◌else◌}
use carbon_veritas.Indexer.Fetch.{RpcEvent}
use carbon_veritas.Indexer.Json.{Json, Conversions, ◌>>=◌, ◌//◌, get, truthy, number_or, text_or}
use carbon_veritas.Indexer.Events.{
  SyncEvent, credit_submitted, credit_approved, credit_minted, credit_rejected, credit_transferred,
  credit_retired,
}
use carbon_veritas.Indexer.Parse.Common.{is_true, hash_of}

module _ (js : Conversions) (ev : RpcEvent Json) where
  unfoldable pub parse_submitted : Json → Option SyncEvent
  parse_submitted v = do
    credit_id ← number_or js (get v "credit_id" // get v "creditId")
    issuer ← text_or js (get v "issuer") ""
    project_id ← text_or js (get v "project_id" // get v "projectId") ""
    methodology ← text_or js (get v "methodology") ""
    vintage_start ← text_or js (get v "vintage_start" // get v "vintageStart") ""
    vintage_end ← text_or js (get v "vintage_end" // get v "vintageEnd") ""
    tonnes ← number_or js (get v "tonnes")
    geography ← text_or js (get v "geography") ""
    serial_prefix ← text_or js (get v "serial_prefix" // get v "serialPrefix") ""
    sdg_flags ← number_or js (get v "sdg_flags" // get v "sdgFlags")
    permanence ← number_or js (get v "permanence_rating" // get v "permanenceRating")
    buffer ← number_or js (get v "buffer_contribution_pct" // get v "bufferContributionPct")
    additionality ← number_or js (get v "additionality_type" // get v "additionalityType")
    ipfs_hash ← text_or js (get v "ipfs_hash" // get v "ipfsHash") ""
    timestamp ← number_or js (get v "timestamp")
    tx_hash ← hash_of js ev v
    some (
        credit_submitted (record {
          credit_id = credit_id;
          issuer = issuer;
          project_id = project_id;
          methodology = methodology;
          vintage_start = vintage_start;
          vintage_end = vintage_end;
          tonnes = tonnes;
          geography = geography;
          serial_prefix = serial_prefix;
          sdg_flags = sdg_flags;
          permanence_rating = permanence;
          buffer_contribution_pct = buffer;
          additionality_type = additionality;
          ipfs_hash = ipfs_hash;
          timestamp = timestamp;
          tx_hash = tx_hash;
        }))

  -- `v.comments ? String(v.comments) : undefined`
  abbrev pub comments_of : Option Json → Option (Option String)
  comments_of v = if truthy v then (text_or js v "" >>= λ s. some (some s)) else some none

  unfoldable pub parse_approved : Json → Option SyncEvent
  parse_approved v = do
    credit_id ← number_or js (get v "credit_id" // get v "creditId")
    verifier ← text_or js (get v "verifier") ""
    comments ← comments_of (get v "comments")
    timestamp ← number_or js (get v "timestamp")
    tx_hash ← hash_of js ev v
    some (
        credit_approved (record {
          credit_id = credit_id;
          verifier = verifier;
          approved = is_true (get v "approved");
          comments = comments;
          timestamp = timestamp;
          tx_hash = tx_hash;
        }))

  unfoldable pub parse_minted : Json → Option SyncEvent
  parse_minted v = do
    credit_id ← number_or js (get v "credit_id" // get v "creditId")
    token_id ← text_or js (get v "token_id" // get v "tokenId") ""
    timestamp ← number_or js (get v "timestamp")
    tx_hash ← hash_of js ev v
    some (
        credit_minted (record {
          credit_id = credit_id;
          token_id = token_id;
          timestamp = timestamp;
          tx_hash = tx_hash;
        }))

  unfoldable pub parse_rejected : Json → Option SyncEvent
  parse_rejected v = do
    credit_id ← number_or js (get v "credit_id" // get v "creditId")
    verifier ← text_or js (get v "verifier") ""
    reason ← text_or js (get v "reason") ""
    timestamp ← number_or js (get v "timestamp")
    tx_hash ← hash_of js ev v
    some (
        credit_rejected (record {
          credit_id = credit_id;
          verifier = verifier;
          reason = reason;
          timestamp = timestamp;
          tx_hash = tx_hash;
        }))

  unfoldable pub parse_transferred : Json → Option SyncEvent
  parse_transferred v = do
    credit_id ← number_or js (get v "credit_id" // get v "creditId")
    sender ← text_or js (get v "from") ""
    receiver ← text_or js (get v "to") ""
    timestamp ← number_or js (get v "timestamp")
    tx_hash ← hash_of js ev v
    some (
        credit_transferred (record {
          credit_id = credit_id;
          from = sender;
          to = receiver;
          timestamp = timestamp;
          tx_hash = tx_hash;
        }))

  unfoldable pub parse_retired : Json → Option SyncEvent
  parse_retired v = do
    credit_id ← number_or js (get v "credit_id" // get v "creditId")
    retired_by ← text_or js (get v "retired_by" // get v "retiredBy") ""
    beneficiary ← text_or js (get v "beneficiary") ""
    reason ← text_or js (get v "reason") ""
    accounting_period ← text_or js (get v "accounting_period" // get v "accountingPeriod") ""
    tonnes_retired ← number_or js (get v "tonnes_retired" // get v "tonnesRetired")
    tx_hash ← hash_of js ev v
    ledger_sequence ← number_or js (get v "ledger_sequence" // get v "ledgerSequence")
    timestamp ← number_or js (get v "timestamp")
    some (
        credit_retired (record {
          credit_id = credit_id;
          retired_by = retired_by;
          beneficiary = beneficiary;
          reason = reason;
          accounting_period = accounting_period;
          tonnes_retired = tonnes_retired;
          tx_hash = tx_hash;
          ledger_sequence = ledger_sequence;
          timestamp = timestamp;
        }))
