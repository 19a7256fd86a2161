-- ===== src/Api/Webhooks/Ownership.antt =====
-- Only the owner of a webhook removes it, and removing it undoes its registration.
use carbon_veritas.Base.{
  ◌+◌, ◌≡◌, refl, String, Bool, true, false, not, none, some, List, [], ◌∷◌, ◌++◌, arith, str_eq,
  eq_refl,
}
use carbon_veritas.Store.Rows.{find?, select, find?-append_none, find?-never}
use carbon_veritas.Store.Schema.{Webhook, webhook_by_id}
use carbon_veritas.Store.Prisma.{PrismaClient}
use carbon_veritas.Store.Action.{World, ok, err, not_found, forbidden, webhooks}
use carbon_veritas.Api.Webhooks.Registry.{CreateWebhookDto, new_webhook, register, remove}

select-added :
    {A : Type 0} (p : A → Bool) (rows : List A) (r : A)
    → find? p rows ≡ none
    → p r ≡ true
    → select (λ x. not (p x)) (rows ++ r ∷ []) ≡ rows
select-added p [] r e h = rw h refl
select-added p (x ∷ rows) r e h = ground (arith, select-added p rows r)

module _ (client : PrismaClient) {C : Type 0} where
  remove-missing :
      (user_id id : String) (w : World C)
      → find? (webhook_by_id id) w.db.webhooks ≡ none
      → remove client user_id id w ≡ (err (not_found "Webhook not found"), w)
  unfolding remove
  remove-missing user_id id w e =
      ground (arith, client.find_unique_lem Webhook (webhook_by_id id) w.db.webhooks)

  remove-foreign :
      (user_id id : String) (w : World C) (h : Webhook)
      → find? (webhook_by_id id) w.db.webhooks ≡ some h
      → str_eq h.user_id user_id ≡ false
      → remove client user_id id w ≡ (err (forbidden "You do not own this webhook"), w)
  unfolding remove
  remove-foreign user_id id w h e other =
      ground (arith, client.find_unique_lem Webhook (webhook_by_id id) w.db.webhooks)

  remove-owned :
      (user_id id : String) (w : World C) (h : Webhook)
      → find? (webhook_by_id id) w.db.webhooks ≡ some h
      → str_eq h.user_id user_id ≡ true
      → remove client user_id id w ≡ (
        ok id,
        record w {
          db = record w.db { webhooks = select (λ x. not (webhook_by_id id x)) w.db.webhooks };
        },
      )
  unfolding remove
  remove-owned user_id id w h e own = ground (
    arith,
    client.find_unique_lem Webhook (webhook_by_id id) w.db.webhooks,
    client.delete_found Webhook (webhook_by_id id) w.db.webhooks h e,
  )

  abbrev after : String → String → CreateWebhookDto → World C → World C
  after user_id secret dto w = record w {
    db = record w.db {
      webhooks = w.db.webhooks ++ new_webhook user_id secret dto (client.cuid w.drawn) ∷ [];
    };
    drawn = w.drawn + 1;
  }

  registered :
      (user_id secret : String) (dto : CreateWebhookDto) (w : World C)
      → register client user_id secret dto w
        ≡ (ok (new_webhook user_id secret dto (client.cuid w.drawn)), after user_id secret dto w)
  unfolding register
  registered user_id secret dto w =
      let row = new_webhook user_id secret dto (client.cuid w.drawn) in
      ground (
        arith,
        client.create_new Webhook webhooks.clash row w.db.webhooks (find?-never w.db.webhooks),
      )

  -- After a webhook was registered under an identifier that was new, another user who tries to
  -- remove it is refused and changes nothing, and when its owner removes it the database is as it
  -- was before the registration.
  pub remove-register :
      (user_id other secret : String) (dto : CreateWebhookDto) (w : World C)
      → find? (webhook_by_id (client.cuid w.drawn)) w.db.webhooks ≡ none
      → str_eq user_id other ≡ false
      → (let id = client.cuid w.drawn in
          let w' = (register client user_id secret dto w).1 in
          (remove client other id w' ≡ (err (forbidden "You do not own this webhook"), w'))
          × ((remove client user_id id w').0 ≡ ok id)
          × ((remove client user_id id w').1.db ≡ w.db))
  remove-register user_id other secret dto w new differ =
      let id = client.cuid w.drawn in
      let row = new_webhook user_id secret dto id in
      let there : find? (webhook_by_id id) (w.db.webhooks ++ row ∷ []) ≡ some row =
        ground (arith, find?-append_none (webhook_by_id id) w.db.webhooks (row ∷ []), eq_refl id) in
      let w' = after user_id secret dto w in
      let back = select-added (webhook_by_id id) w.db.webhooks row new (eq_refl id) in
      rw
        (
          registered user_id secret dto w,
          remove-owned user_id id w' row there (eq_refl user_id),
          back,
        )
        (remove-foreign other id w' row there differ, refl, refl)
