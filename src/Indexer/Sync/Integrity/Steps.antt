-- ===== src/Indexer/Sync/Integrity/Steps.antt =====
-- The steps that the processors share keep the relations between the tables.
use carbon_veritas.Base.{ℕ, ◌≡◌, refl, sym, ◌∙◌, String, Bool, Option, none, some, eq_refl}
use carbon_veritas.Store.Rows.{exists?_of_find?, exists?-modify, exists?-last}
use carbon_veritas.Store.Schema.{
  User, Credit, Db, user_by_id, user_by_pub, credit_by_id, credit_by_number,
}
use carbon_veritas.Store.Prisma.{PrismaClient}
use carbon_veritas.Store.Action.{
  Action, World, Result, pure, ◌>>◌, users, credits, approvals, update, create,
}
use carbon_veritas.Store.Action.Rules.{
  >>-Ensures, Ensures, update-Ensures, create-Ensures, upsert-Ensures,
}
use carbon_veritas.Store.References.{
  RefsResolve, CreditRefs, UserKnown, CreditKnown, add_user-RefsResolve, change_users-RefsResolve,
  change_credits-RefsResolve, add_approval-RefsResolve,
}
use carbon_veritas.Indexer.Writes.{keep_user, new_user, new_approval}
use carbon_veritas.Indexer.Processors.{if_found, upsert_user}

module _ {C : Type 0} where
  -- The relations hold at the end, whether the action returns or throws.
  abbrev pub Kept : {A : Type 0} → Result A × World C → Type 0
  Kept = Ensures RefsResolve (λ a d. Unit {0})

  pub if_found-Kept :
      {A : Type 0} (o : Option A) (k : A → Action C (Unit {0})) (w : World C)
      → RefsResolve w.db
      → ((a : A) → o ≡ some a → Kept (k a w))
      → Kept (if_found o k w)
  if_found-Kept none k w h next = (h, tt)
  if_found-Kept (some a) k w h next = next a refl

  -- What an upsert of a user leaves: the user is known, the credits and offers are as before.
  abbrev pub AfterUser : World C → User → Db → Type 0
  AfterUser w u d = UserKnown d u.id × (d.credits ≡ w.db.credits) × (d.offers ≡ w.db.offers)

module _ (client : PrismaClient) where
  pub find-CreditKnown :
      (n : ℕ) (d : Db) (c : Credit)
      → client.find_unique Credit (credit_by_number n) d.credits ≡ some c
      → CreditKnown d c.id
  find-CreditKnown n d c e =
      exists?_of_find? (credit_by_number n) (credit_by_id c.id) d.credits c
        (sym (client.find_unique_lem Credit (credit_by_number n) d.credits) ∙ e) (eq_refl c.id)

module _ (client : PrismaClient) (date : String → ℕ) {C : Type 0} where
  pub upsert_user-Ensures :
      (key : String) (w : World C)
      → RefsResolve w.db
      → Ensures RefsResolve (AfterUser w) (upsert_user client date key w)
  upsert_user-Ensures key w h =
      let u = new_user key (client.cuid w.drawn) in
      upsert-Ensures client users RefsResolve (AfterUser w) (user_by_pub key) keep_user
        (new_user key) w
        (
          change_users-RefsResolve w.db h (user_by_pub key) keep_user (λ u. refl),
          λ r found. (
            exists?-modify (user_by_pub key) (user_by_id r.id) keep_user w.db.users (λ u. refl)
                ∙ exists?_of_find? (user_by_pub key) (user_by_id r.id) w.db.users r found
                    (eq_refl r.id),
            refl,
            refl,
          ),
        )
        (
          add_user-RefsResolve w.db h u,
          (exists?-last (user_by_id u.id) w.db.users u (eq_refl u.id), refl, refl),
        )

  -- A last write, whose result is not used.
  pub last-Kept : {A : Type 0} (m : Action C A) (w : World C) → Kept (m w) → Kept ((m >> pure tt) w)
  last-Kept m w h =
      >>-Ensures RefsResolve (λ a d. Unit {0}) (λ a d. Unit {0}) m (pure tt) w h
        (λ a w' k _. (k, tt))

  -- An update of a credit that keeps its references.
  pub update_credit-Kept :
      (p : Credit → Bool) (f : Credit → Credit) (w : World C)
      → RefsResolve w.db
      → ((c : Credit) → (f c).id ≡ c.id)
      → ((c : Credit) → CreditRefs w.db c → CreditRefs w.db (f c))
      → Kept ((update client credits p f >> pure tt) w)
  update_credit-Kept p f w h same keep = last-Kept (update client credits p f) w (
      update-Ensures client credits RefsResolve (λ a d. Unit {0}) p f w h
        (change_credits-RefsResolve w.db h p f same keep, λ r e. tt))

  -- A new approval after the upsert of its verifier.
  pub add_approval-Ensures :
      (c : Credit) (u : User) (approved : Bool) (comments : Option String) (w : World C)
      → RefsResolve w.db
      → UserKnown w.db u.id
      → CreditKnown w.db c.id
      → Kept (create client approvals (new_approval c u approved comments) w)
  add_approval-Ensures c u approved comments w h known listed =
      create-Ensures client approvals RefsResolve (λ a d. Unit {0})
        (new_approval c u approved comments) w h
        (
          add_approval-RefsResolve w.db h (new_approval c u approved comments (client.cuid w.drawn))
              (known, listed),
          tt,
        )
