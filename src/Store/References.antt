-- ===== src/Store/References.antt =====
-- Referential integrity of the tables: the relations of api/prisma/schema.prisma (`@relation`) among
-- users, credits, approvals, offers, trades and retirements.
use carbon_veritas.Base.{
  ◌≡◌, refl, ◌∙◌, String, Bool, true, List, [], ◌∷◌, ◌++◌, str_eq, All, All-map, All-append,
}
use carbon_veritas.Store.Rows.{exists?, exists?-append, exists?-modify, modify, All-modify}
use carbon_veritas.Store.Schema.{
  User, Credit, Approval, Offer, Trade, Retirement, BridgeRecord, Db, user_by_id, credit_by_id,
}

abbrev pub offer_by_id : String → Offer → Bool
offer_by_id key r = str_eq r.id key

abbrev pub UserKnown : Db → String → Type 0
UserKnown d id = exists? (user_by_id id) d.users ≡ true

abbrev pub CreditKnown : Db → String → Type 0
CreditKnown d id = exists? (credit_by_id id) d.credits ≡ true

abbrev pub OfferKnown : Db → String → Type 0
OfferKnown d id = exists? (offer_by_id id) d.offers ≡ true

abbrev pub CreditRefs : Db → Credit → Type 0
CreditRefs d c = UserKnown d c.owner_id × UserKnown d c.issuer_id

abbrev pub ApprovalRefs : Db → Approval → Type 0
ApprovalRefs d a = UserKnown d a.verifier_id × CreditKnown d a.credit_id

abbrev pub OfferRefs : Db → Offer → Type 0
OfferRefs d o = UserKnown d o.seller_id × CreditKnown d o.credit_id

abbrev pub TradeRefs : Db → Trade → Type 0
TradeRefs d t = UserKnown d t.buyer_id × OfferKnown d t.offer_id × CreditKnown d t.credit_id

abbrev pub RetirementRefs : Db → Retirement → Type 0
RetirementRefs d r = CreditKnown d r.credit_id

pub record RefsResolve (d : Db) : Type 0 where
  pub credits : All (CreditRefs d) d.credits
  pub approvals : All (ApprovalRefs d) d.approvals
  pub offers : All (OfferRefs d) d.offers
  pub trades : All (TradeRefs d) d.trades
  pub retirements : All (RetirementRefs d) d.retirements

-- What can be referred to can still be referred to.
pub record Grows (d d' : Db) : Type 0 where
  pub users : (id : String) → UserKnown d id → UserKnown d' id
  pub credits : (id : String) → CreditKnown d id → CreditKnown d' id
  pub offers : (id : String) → OfferKnown d id → OfferKnown d' id

-- A step that grows the database and treats the rows of each table well keeps the integrity.
pub Grows-RefsResolve :
    (d d' : Db)
    → Grows d d'
    → (All (CreditRefs d') d.credits → All (CreditRefs d') d'.credits)
    → (All (ApprovalRefs d') d.approvals → All (ApprovalRefs d') d'.approvals)
    → (All (OfferRefs d') d.offers → All (OfferRefs d') d'.offers)
    → (All (TradeRefs d') d.trades → All (TradeRefs d') d'.trades)
    → (All (RetirementRefs d') d.retirements → All (RetirementRefs d') d'.retirements)
    → RefsResolve d
    → RefsResolve d'
Grows-RefsResolve d d' g c a o t r h = record {
  credits = c (All-map _ _ d.credits (λ x p. (g.users _ p.0, g.users _ p.1)) h.credits);
  approvals = a (All-map _ _ d.approvals (λ x p. (g.users _ p.0, g.credits _ p.1)) h.approvals);
  offers = o (All-map _ _ d.offers (λ x p. (g.users _ p.0, g.credits _ p.1)) h.offers);
  trades =
      t (All-map _ _ d.trades (λ x p. (g.users _ p.0, g.offers _ p.1, g.credits _ p.2)) h.trades);
  retirements = r (All-map _ _ d.retirements (λ x p. g.credits _ p) h.retirements);
}

module _ (d : Db) (h : RefsResolve d) where
  pub add_user-RefsResolve : (u : User) → RefsResolve (record d { users = d.users ++ u ∷ [] })
  add_user-RefsResolve u =
      let g : Grows d (record d { users = d.users ++ u ∷ [] }) = record {
        users = λ id k. exists?-append (user_by_id id) d.users (u ∷ []) k;
        credits = λ id k. k;
        offers = λ id k. k;
      } in
      Grows-RefsResolve d _ g (λ x. x) (λ x. x) (λ x. x) (λ x. x) (λ x. x) h

  pub change_users-RefsResolve :
      (p : User → Bool) (f : User → User)
      → ((u : User) → (f u).id ≡ u.id)
      → RefsResolve (record d { users = modify p f d.users })
  change_users-RefsResolve p f same =
      let g : Grows d (record d { users = modify p f d.users }) = record {
        users = λ id k. exists?-modify p (user_by_id id) f d.users (λ u. rw (same u)) ∙ k;
        credits = λ id k. k;
        offers = λ id k. k;
      } in
      Grows-RefsResolve d _ g (λ x. x) (λ x. x) (λ x. x) (λ x. x) (λ x. x) h

  pub add_credit-RefsResolve :
      (c : Credit) → CreditRefs d c → RefsResolve (record d { credits = d.credits ++ c ∷ [] })
  add_credit-RefsResolve c r =
      let g : Grows d (record d { credits = d.credits ++ c ∷ [] }) = record {
        users = λ id k. k;
        credits = λ id k. exists?-append (credit_by_id id) d.credits (c ∷ []) k;
        offers = λ id k. k;
      } in
      Grows-RefsResolve d _ g (λ x. All-append _ d.credits (c ∷ []) x (r, tt)) (λ x. x) (λ x. x)
        (λ x. x) (λ x. x) h

  pub change_credits-RefsResolve :
      (p : Credit → Bool) (f : Credit → Credit)
      → ((c : Credit) → (f c).id ≡ c.id)
      → ((c : Credit) → CreditRefs d c → CreditRefs d (f c))
      → RefsResolve (record d { credits = modify p f d.credits })
  change_credits-RefsResolve p f same keep =
      let g : Grows d (record d { credits = modify p f d.credits }) = record {
        users = λ id k. k;
        credits = λ id k. exists?-modify p (credit_by_id id) f d.credits (λ c. rw (same c)) ∙ k;
        offers = λ id k. k;
      } in
      Grows-RefsResolve d _ g (All-modify _ p f d.credits keep) (λ x. x) (λ x. x) (λ x. x) (λ x. x)
        h

  pub add_offer-RefsResolve :
      (o : Offer) → OfferRefs d o → RefsResolve (record d { offers = d.offers ++ o ∷ [] })
  add_offer-RefsResolve o r =
      let g : Grows d (record d { offers = d.offers ++ o ∷ [] }) = record {
        users = λ id k. k;
        credits = λ id k. k;
        offers = λ id k. exists?-append (offer_by_id id) d.offers (o ∷ []) k;
      } in
      Grows-RefsResolve d _ g (λ x. x) (λ x. x) (λ x. All-append _ d.offers (o ∷ []) x (r, tt))
        (λ x. x) (λ x. x) h

  pub change_offers-RefsResolve :
      (p : Offer → Bool) (f : Offer → Offer)
      → ((o : Offer) → (f o).id ≡ o.id)
      → ((o : Offer) → OfferRefs d o → OfferRefs d (f o))
      → RefsResolve (record d { offers = modify p f d.offers })
  change_offers-RefsResolve p f same keep =
      let g : Grows d (record d { offers = modify p f d.offers }) = record {
        users = λ id k. k;
        credits = λ id k. k;
        offers = λ id k. exists?-modify p (offer_by_id id) f d.offers (λ o. rw (same o)) ∙ k;
      } in
      Grows-RefsResolve d _ g (λ x. x) (λ x. x) (All-modify _ p f d.offers keep) (λ x. x) (λ x. x) h

  same_keys :
      (d' : Db) → d'.users ≡ d.users → d'.credits ≡ d.credits → d'.offers ≡ d.offers → Grows d d'
  same_keys d' u c o = record {
    users = λ id k. rw u k;
    credits = λ id k. rw c k;
    offers = λ id k. rw o k;
  }

  pub add_approval-RefsResolve :
      (a : Approval)
      → ApprovalRefs d a
      → RefsResolve (record d { approvals = d.approvals ++ a ∷ [] })
  add_approval-RefsResolve a r =
      Grows-RefsResolve d _ (same_keys _ refl refl refl) (λ x. x)
        (λ x. All-append _ d.approvals (a ∷ []) x (r, tt)) (λ x. x) (λ x. x) (λ x. x) h

  pub add_trade-RefsResolve :
      (t : Trade) → TradeRefs d t → RefsResolve (record d { trades = d.trades ++ t ∷ [] })
  add_trade-RefsResolve t r =
      Grows-RefsResolve d _ (same_keys _ refl refl refl) (λ x. x) (λ x. x) (λ x. x)
        (λ x. All-append _ d.trades (t ∷ []) x (r, tt)) (λ x. x) h

  pub add_retirement-RefsResolve :
      (t : Retirement)
      → RetirementRefs d t
      → RefsResolve (record d { retirements = d.retirements ++ t ∷ [] })
  add_retirement-RefsResolve t r =
      Grows-RefsResolve d _ (same_keys _ refl refl refl) (λ x. x) (λ x. x) (λ x. x) (λ x. x)
        (λ x. All-append _ d.retirements (t ∷ []) x (r, tt)) h

  pub set_bridge_records-RefsResolve :
      (rows : List BridgeRecord) → RefsResolve (record d { bridge_records = rows })
  set_bridge_records-RefsResolve rows =
      Grows-RefsResolve d _ (same_keys _ refl refl refl) (λ x. x) (λ x. x) (λ x. x) (λ x. x)
        (λ x. x) h
