-- ===== src/Api/Marketplace/Effects.antt =====
-- What a purchase writes when every guard holds and the chain agrees.
use carbon_veritas.Base.{
  ℕ, ◌+◌, ◌*◌, ◌≤◌, ◌≡◌, refl, String, Bool, true, false, some, [], ◌∷◌, ◌++◌, arith, leb, str_eq,
  if◌then◌else◌, eq_iff, sym,
}
use mathlib.Core.Path.{subst}
use carbon_veritas.Store.Rows.{find?, modify, find?-never, find?-modify_self, find?-holds}
use carbon_veritas.Store.Schema.{Credit, Offer, Trade, OfferStatus, offer_by_number, credit_by_id}
use carbon_veritas.Store.Prisma.{PrismaClient}
use carbon_veritas.Store.Action.{World, ok, trades}
use carbon_veritas.Api.Stellar.{Stellar}
use carbon_veritas.Api.Marketplace.{purchase, fill_offer, give_credit, is_past, buy_credits}

module _ (client : PrismaClient) {C : Type 0} (stellar : Stellar C) where
  -- When the offer and its credit exist, the offer is active, of another seller, not past its
  -- expiry and has the requested amount left, and the chain accepts the purchase and answers the
  -- transfer, `buyCredits` succeeds: one trade at the price of the offer is added, the amount
  -- filled grows by the amount and the offer is filled exactly when nothing is left, the credit
  -- belongs to the buyer, and no user changes.
  pub buy_credits-writes :
      (now : ℕ) (user_id wallet : String) (offer_id amount : ℕ) (w : World C) (o : Offer)
      (c : Credit) (chain₁ chain₂ : C) (moved : Bool)
      → find? (offer_by_number offer_id) w.db.offers ≡ some o
      → find? (credit_by_id o.credit_id) w.db.credits ≡ some c
      → o.status ≡ OfferStatus.active
      → str_eq o.seller_id user_id ≡ false
      → amount + o.amount_filled ≤ o.amount
      → is_past now o.expires_at ≡ false
      → stellar.buy_credits wallet offer_id amount w.chain ≡ (some true, chain₁)
      → stellar.transfer_credit wallet o.seller_id c.credit_id chain₁ ≡ (some moved, chain₂)
      → (trade : Trade) × (w' : World C) × (buy_credits client stellar now user_id wallet offer_id
            amount w
          ≡ (ok trade, w'))
        × (w'.db.trades ≡ w.db.trades ++ trade ∷ [])
        × (trade ≡ record {
          id = client.cuid w.drawn;
          offer_id = o.id;
          buyer_id = user_id;
          amount = amount;
          total_price = amount * o.price_per_tonne;
          credit_id = c.id;
        })
        × (find? (offer_by_number offer_id) w'.db.offers
            ≡ some (record o {
              amount_filled = o.amount_filled + amount;
              status =
                  if leb o.amount (o.amount_filled + amount)
                  then OfferStatus.filled
                  else OfferStatus.active;
            }))
        × (find? (credit_by_id c.id) w'.db.credits ≡ some (record c { owner_id = user_id }))
        × (w'.db.users ≡ w.db.users)
  unfolding buy_credits
  buy_credits-writes now user_id wallet offer_id amount w o c chain₁ chain₂ moved found owned active
        other fits open' paid transferred =
      let p = offer_by_number offer_id in
      let q = credit_by_id c.id in
      let f = fill_offer (o.amount_filled + amount) (leb o.amount (o.amount_filled + amount)) in
      let trade =
        purchase o user_id amount (amount * o.price_per_tonne) c.id (client.cuid w.drawn) in
      let same : c.id ≡ o.credit_id =
        (eq_iff _ _).0 (find?-holds (credit_by_id o.credit_id) w.db.credits c owned) in
      let again : find? q w.db.credits ≡ some c =
        subst (λ k. find? (credit_by_id k) w.db.credits ≡ some c) (sym same) owned in
      let w' : World C = record w {
        db = record w.db {
          trades = w.db.trades ++ trade ∷ [];
          credits = modify q (give_credit user_id) w.db.credits;
          offers = modify p f w.db.offers;
        };
        drawn = w.drawn + 1;
        chain = chain₂;
        emitted =
            w.emitted
            ++ record { event_type = "marketplace.offer.filled"; subject = offer_id } ∷ [];
      } in
      (
        trade,
        w',
        ground (
          arith,
          client.find_unique_lem Offer p w.db.offers,
          client.find_unique_lem Credit (credit_by_id o.credit_id) w.db.credits,
          client.create_new Trade trades.clash trade w.db.trades (find?-never w.db.trades),
          client.update_found Credit q (give_credit user_id) w.db.credits c again,
          client.update_found Offer p f w.db.offers o found,
        ),
        refl,
        refl,
        find?-modify_self p f w.db.offers o found (find?-holds p w.db.offers o found),
        find?-modify_self q (give_credit user_id) w.db.credits c again
            (find?-holds q w.db.credits c again),
        refl,
      )
