-- ===== src/Api/Webhooks/Registry.antt =====
-- The webhooks of a user and the events sent to them, api/src/webhooks/webhooks.service.ts.
-- `secret` is what `generateSecret` draws, `dispatch` the network for a URL.
use carbon_veritas.Base.{ℕ, String, Bool, true, not, ◌&&◌, Option, List, map, str_eq}
use carbon_veritas.Store.Rows.{exists?}
use carbon_veritas.Store.Schema.{Webhook, webhook_by_id}
use carbon_veritas.Store.Prisma.{PrismaClient}
use carbon_veritas.Store.Action.{
  Action, pure, throw_if, or_throw, ◌>>=◌, ◌>>◌, webhooks, find_unique, find_many, create, delete,
  not_found, forbidden,
}
use carbon_veritas.Api.Webhooks.{Dispatched, Delivery, is_success, deliver_with_retry}

pub record CreateWebhookDto : Type 0 where
  pub url : String
  pub events : List String

-- The answer of `sendTest`.
pub record TestResult : Type 0 where
  pub success : Bool
  pub status_code : ℕ
  pub error : Option String
  pub webhook_id : String

abbrev pub new_webhook : String → String → CreateWebhookDto → String → Webhook
new_webhook user_id secret dto id = record {
  id = id;
  user_id = user_id;
  url = dto.url;
  secret = secret;
  events = dto.events;
  active = true;
}

-- `events: { has: eventType }, active: true`
abbrev pub receives : String → Webhook → Bool
receives event_type h = exists? (λ e. str_eq e event_type) h.events && h.active

module _ (client : PrismaClient) {C : Type 0} where
  unfoldable pub register : String → String → CreateWebhookDto → Action C Webhook
  register user_id secret dto = create client webhooks (new_webhook user_id secret dto)

  unfoldable pub list : String → Action C (List Webhook)
  list user_id = find_many client webhooks (λ h. str_eq h.user_id user_id)

  -- For a webhook without recorded deliveries: the key of a delivery's row would refuse the deletion.
  unfoldable pub remove : String → String → Action C String
  remove user_id webhook_id = do
    found ← find_unique client webhooks (webhook_by_id webhook_id)
    webhook ← or_throw found (not_found "Webhook not found")
    throw_if (not (str_eq webhook.user_id user_id)) (forbidden "You do not own this webhook")
    delete client webhooks (webhook_by_id webhook_id)
    pure webhook_id

  unfoldable pub send_test : (String → Dispatched) → String → String → Action C TestResult
  send_test dispatch user_id webhook_id = do
    found ← find_unique client webhooks (webhook_by_id webhook_id)
    webhook ← or_throw found (not_found "Webhook not found")
    throw_if (not (str_eq webhook.user_id user_id)) (forbidden "You do not own this webhook")
    let result = dispatch webhook.url
    pure (record {
      success = is_success result;
      status_code = result.status;
      error = result.error;
      webhook_id = webhook_id;
    })

  -- The records of the deliveries that one event makes, for each webhook that receives it.
  unfoldable pub dispatch_event :
      (ℕ → String)
      → Option ℕ
      → Option ℕ
      → (String → ℕ → Dispatched)
      → String
      → Action C (List (String × List Delivery))
  dispatch_event http attempts base dispatch event_type = do
    recipients ← find_many client webhooks (receives event_type)
    pure (map (λ h. (h.id, (deliver_with_retry http attempts base (dispatch h.url)).0)) recipients)
