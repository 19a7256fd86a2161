-- ===== src/Store/Action/Rules.antt =====
-- Rules for proving that an action keeps a property of the database, however it ends.
use carbon_veritas.Base.{
  ◌+◌, ◌≡◌, sym, String, Bool, some, ◌++◌, [], ◌∷◌, arith, Option-cases, inl, inr,
}
use mathlib.Core.Path.{subst}
use carbon_veritas.Store.Rows.{find?, modify}
use carbon_veritas.Store.Schema.{Db}
use carbon_veritas.Store.Prisma.{PrismaClient}
use carbon_veritas.Store.Action.{
  record_missing, unique_conflict, Action, World, Result, ok, err, ◌>>=◌, ◌>>◌, Table, create,
  update, upsert,
}

-- `P` holds of the database at the end; a value that is returned meets `Q` with that database.
abbrev pub Ensures :
    {C A : Type 0} → (Db → Type 0) → (A → Db → Type 0) → Result A × World C → Type 0
Ensures P Q (ok a, w) = P w.db × Q a w.db
Ensures P Q (err _, w) = P w.db

module _ {C A B : Type 0} (P : Db → Type 0) (Q : A → Db → Type 0) (R : B → Db → Type 0) where
  resume : (A → Action C B) → Result A × World C → Result B × World C
  resume f (ok a, w) = f a w
  resume f (err e, w) = (err e, w)

  resume-Ensures :
      (x : Result A × World C) (f : A → Action C B)
      → Ensures P Q x
      → ((a : A) (w : World C) → P w.db → Q a w.db → Ensures P R (f a w))
      → Ensures P R (resume f x)
  unfolding resume
  resume-Ensures (ok a, w) f (p, q) k = k a w p q
  resume-Ensures (err e, w) f p k = p

  >>=-resume : (m : Action C A) (f : A → Action C B) (w : World C) → (m >>= f) w ≡ resume f (m w)
  unfolding resume
  >>=-resume m f w = ground arith

  pub >>=-Ensures :
      (m : Action C A) (f : A → Action C B) (w : World C)
      → Ensures P Q (m w)
      → ((a : A) (w' : World C) → P w'.db → Q a w'.db → Ensures P R (f a w'))
      → Ensures P R ((m >>= f) w)
  >>=-Ensures m f w h k = rw (>>=-resume m f w) (resume-Ensures (m w) f h k)

  pub >>-Ensures :
      (m : Action C A) (k : Action C B) (w : World C)
      → Ensures P Q (m w)
      → ((a : A) (w' : World C) → P w'.db → Q a w'.db → Ensures P R (k w'))
      → Ensures P R ((m >> k) w)
  >>-Ensures m k w h next = >>=-Ensures m (λ _. k) w h next

module _ (client : PrismaClient) {C Row : Type 0} (t : Table Row) (P : Db → Type 0)
    (Q : Row → Db → Type 0) where
  pub update-Ensures :
      (p : Row → Bool) (f : Row → Row) (w : World C)
      → P w.db
      → (let d = t.set_rows (modify p f (t.rows w.db)) w.db in
          P d × ((r : Row) → find? p (t.rows w.db) ≡ some r → Q (f r) d))
      → Ensures P Q (update client t p f w)
  update-Ensures p f w before (after, q) = elim (Option-cases (find? p (t.rows w.db))) [
    | inl missing ↦
        let e : update client t p f w ≡ (err record_missing, w) =
          ground (arith, client.update_missing Row p f (t.rows w.db) missing) in
        subst (Ensures P Q) (sym e) before
    | inr (r, found) ↦
        let e : update client t p f w
            ≡ (ok (f r), record w { db = t.set_rows (modify p f (t.rows w.db)) w.db }) =
          ground (arith, client.update_found Row p f (t.rows w.db) r found) in
        subst (Ensures P Q) (sym e) (after, q r found)
  ]

  pub create-Ensures :
      (row : String → Row) (w : World C)
      → P w.db
      → (let r = row (client.cuid w.drawn) in
          let d = t.set_rows (t.rows w.db ++ r ∷ []) w.db in P d × Q r d)
      → Ensures P Q (create client t row w)
  create-Ensures row w before after =
      let r = row (client.cuid w.drawn) in
      elim (Option-cases (find? (t.clash r) (t.rows w.db))) [
        | inl fresh ↦
            let e : create client t row w ≡ (
              ok r,
              record w { db = t.set_rows (t.rows w.db ++ r ∷ []) w.db; drawn = w.drawn + 1 },
            ) =
              ground (arith, client.create_new Row t.clash r (t.rows w.db) fresh) in
            subst (Ensures P Q) (sym e) after
        | inr (old, clashes) ↦
            let e : create client t row w ≡ (err unique_conflict, w) =
              ground (arith, client.create_clash Row t.clash r old (t.rows w.db) clashes) in
            subst (Ensures P Q) (sym e) before
      ]

  pub upsert-Ensures :
      (p : Row → Bool) (f : Row → Row) (row : String → Row) (w : World C)
      → (let d = t.set_rows (modify p f (t.rows w.db)) w.db in
          P d × ((r : Row) → find? p (t.rows w.db) ≡ some r → Q (f r) d))
      → (let r = row (client.cuid w.drawn) in
          let d = t.set_rows (t.rows w.db ++ r ∷ []) w.db in P d × Q r d)
      → Ensures P Q (upsert client t p f row w)
  upsert-Ensures p f row w (changed, q) added = elim (Option-cases (find? p (t.rows w.db))) [
    | inl missing ↦
        rw (client.upsert_missing Row p f (row (client.cuid w.drawn)) (t.rows w.db) missing) added
    | inr (r, found) ↦
        rw (client.upsert_found Row p f (row (client.cuid w.drawn)) (t.rows w.db) r found)
          (changed, q r found)
  ]
