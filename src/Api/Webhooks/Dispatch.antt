-- ===== src/Api/Webhooks/Dispatch.antt =====
-- Which webhooks an event reaches.
use carbon_veritas.Base.{◌≡◌, ℕ, String, true, Option, List, str_eq}
use carbon_veritas.Store.Rows.{exists?}
use carbon_veritas.Store.Schema.{Webhook}
use carbon_veritas.Api.Webhooks.{max_attempts, Dispatched, Delivery, deliver_with_retry}
use carbon_veritas.Api.Webhooks.Retries.{Delivered}

-- The webhooks that an event of a type is for.
abbrev pub Addressed : String → Webhook → Type 0
Addressed event h = (h.active ≡ true) × (exists? (λ e. str_eq e event) h.events ≡ true)

module _ (http : ℕ → String) (attempts base : Option ℕ) (dispatch : String → ℕ → Dispatched) where
  -- A delivery to an addressed webhook: one record of what the attempts at its own URL ended in.
  abbrev pub Recorded : String → String × List Delivery → Type 0
  Recorded event r =
      (h : Webhook) × (sleeps : List ℕ) × (r.0 ≡ h.id)
      × Addressed event h
      × Delivered http (dispatch h.url) 1 (max_attempts attempts) (r.1, sleeps)

  abbrev deliver_to : Webhook → String × List Delivery
  deliver_to h = (h.id, (deliver_with_retry http attempts base (dispatch h.url)).0)
