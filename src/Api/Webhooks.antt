-- ===== src/Api/Webhooks.antt =====
-- The delivery of webhooks, api/src/webhooks/webhooks.service.ts. The network is an argument: what
-- `dispatch` answers to each attempt. `parse_int` is `parseInt`, with `none` for a result that is
-- not a number or negative.
pub mod Retries
pub mod Registry
pub mod Ownership
pub mod Dispatch
mod Tests
use carbon_veritas.Base.{
  ℕ, zero, suc, ◌+◌, ◌-◌, ◌*◌, ◌^◌, min, max, String, Bool, true, false, not, ◌&&◌, ◌||◌, Option,
  none, some, List, [], ◌∷◌, ltb, leb, ◌==◌, str_eq, or_else, if◌then◌else◌,
}

-- What `dispatch` returns: status 0 is an exception of `fetch`.
pub record Dispatched : Type 0 where
  pub status : ℕ
  pub error : Option String

-- The summary that `recordDelivery` is given, but for its duration.
pub record Delivery : Type 0 where
  pub success : Bool
  pub attempts : ℕ
  pub status_code : Option ℕ
  pub error : Option String

-- A text of the configuration: a text that is missing or empty gives the fallback.
abbrev pub config_number : (String → Option ℕ) → Option String → ℕ → Option ℕ
config_number parse_int none fallback = some fallback
config_number parse_int (some raw) fallback = if str_eq raw "" then some fallback else parse_int raw

-- `Number.isFinite(parsed) && parsed >= 1 ? Math.min(parsed, 5) : 3`
unfoldable pub max_attempts : Option ℕ → ℕ
max_attempts none = 3
max_attempts (some parsed) = if leb 1 parsed then min parsed 5 else 3

unfoldable pub backoff_delay_ms : Option ℕ → ℕ → ℕ
backoff_delay_ms none attempt = 1000 * 2 ^ (attempt - 1)
backoff_delay_ms (some base) attempt = (if ltb 0 base then base else 1000) * 2 ^ (attempt - 1)

abbrev pub is_success : Dispatched → Bool
is_success r = leb 200 r.status && ltb r.status 300

abbrev pub is_retryable : Dispatched → Bool
is_retryable r = r.status == 0 || leb 500 r.status

-- `lastError ?? …` with the text of the status given by `http`
abbrev pub failed_delivery : (ℕ → String) → ℕ → Dispatched → Delivery
failed_delivery http attempt r = record {
  success = false;
  attempts = attempt;
  status_code = if r.status == 0 then none else some r.status;
  error = some (or_else r.error (http r.status));
}

abbrev pub succeeded_delivery : ℕ → Dispatched → Delivery
succeeded_delivery attempt r = record {
  success = true;
  attempts = attempt;
  status_code = some r.status;
  error = none;
}

module _ (http : ℕ → String) (base : Option ℕ) (last : ℕ) where
  -- The loop of `deliverWithRetry` from the attempt `attempt`, with `left` attempts to go of the
  -- `last` ones: the records that it hands to `recordDelivery`, and the milliseconds that it sleeps.
  unfoldable pub deliver_attempts : ℕ → ℕ → (ℕ → Dispatched) → List Delivery × List ℕ
  deliver_attempts zero attempt dispatch = ([], [])
  deliver_attempts (suc left) attempt dispatch =
      let r = dispatch attempt in
      let rest = deliver_attempts left (attempt + 1) dispatch in
      if is_success r
      then (succeeded_delivery attempt r ∷ [], [])
      else (if not (is_retryable r) || attempt == last
          then (failed_delivery http attempt r ∷ [], [])
          else (rest.0, backoff_delay_ms base attempt ∷ rest.1))

unfoldable pub deliver_with_retry :
    (ℕ → String) → Option ℕ → Option ℕ → (ℕ → Dispatched) → List Delivery × List ℕ
deliver_with_retry http attempts base dispatch =
    let last = max_attempts attempts in deliver_attempts http base last last 1 dispatch

-- `Math.min(Math.max(options.limit ?? 50, 1), 200)`
unfoldable pub deliveries_limit : Option ℕ → ℕ
deliveries_limit limit = min (max (or_else limit 50) 1) 200
