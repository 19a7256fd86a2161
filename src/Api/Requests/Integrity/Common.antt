-- ===== src/Api/Requests/Integrity/Common.antt =====
-- What the proofs of the requests share.
use carbon_veritas.Base.{ℕ, ◌≡◌, sym, String, Bool, some, eq_refl}
use mathlib.Core.Path.{subst}
use carbon_veritas.Store.Rows.{find?, exists?_of_find?}
use carbon_veritas.Store.Schema.{Db, Credit, Offer, credit_by_id}
use carbon_veritas.Store.Action.{World}
use carbon_veritas.Store.References.{RefsResolve, UserKnown, CreditKnown, OfferKnown, offer_by_id}
use carbon_veritas.Api.Requests.{Service, Request, serve}

pub found-CreditKnown :
    (p : Credit → Bool) (d : Db) (c : Credit) → find? p d.credits ≡ some c → CreditKnown d c.id
found-CreditKnown p d c e = exists?_of_find? p (credit_by_id c.id) d.credits c e (eq_refl c.id)

pub found-OfferKnown :
    (p : Offer → Bool) (d : Db) (o : Offer) → find? p d.offers ≡ some o → OfferKnown d o.id
found-OfferKnown p d o e = exists?_of_find? p (offer_by_id o.id) d.offers o e (eq_refl o.id)

module _ {C : Type 0} (s : Service C) (now : ℕ) (user_id wallet : String) (w : World C)
    (h : RefsResolve w.db) (user : UserKnown w.db user_id) where
  abbrev pub After : Request → Type 0
  After r = RefsResolve (serve s now user_id wallet r w).db

  -- A request that left the database as it was.
  pub unchanged : (d : Db) → d ≡ w.db → RefsResolve d
  unchanged d e = subst RefsResolve (sym e) h
