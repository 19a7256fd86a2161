-- ===== src/Api/Webhooks/Tests.antt =====
-- A webhook of one user, and another user.
use carbon_veritas.Base.{◌≡◌, refl, ℕ, String, none, [], ◌∷◌}
use carbon_veritas.Store.ListClient.{list_client}
use carbon_veritas.Store.Samples.{sample_world, sample_db}
use carbon_veritas.Store.Action.{World, ok, err, forbidden}
use carbon_veritas.Api.Webhooks.Registry.{CreateWebhookDto, new_webhook, register, remove}
use carbon_veritas.Api.Webhooks.{Dispatched}
use carbon_veritas.Api.Webhooks.Ownership.{remove-register}

abbrev hook : CreateWebhookDto
hook = record { url = "https://a"; events = "credit.minted" ∷ [] }

remove-register_example :
    let w = (register list_client "ann" "s" hook sample_world).1 in
    (remove list_client "bob" "" w ≡ (err (forbidden "You do not own this webhook"), w))
    × ((remove list_client "ann" "" w).0 ≡ ok "")
    × ((remove list_client "ann" "" w).1.db ≡ sample_world.db)
remove-register_example = remove-register list_client "ann" "bob" "s" hook sample_world refl refl

abbrev hooked : World (Unit {0})
hooked = record sample_world {
  db = record sample_db { webhooks = new_webhook "ann" "s" hook "w1" ∷ [] };
}

abbrev answers : String → ℕ → Dispatched
answers url n = record { status = 200; error = none }

abbrev plain : ℕ → String
plain n = "HTTP"
