-- ===== src/Store/Action.antt =====
-- A request handler: an action on the world that returns a value or throws. What was written stays
-- written after an exception, since the code opens no transaction. `C` is the state of the chain
-- behind the Stellar service.
pub mod Rules
use carbon_veritas.Base.{
  ℕ, ◌+◌, ◌≡◌, String, Bool, true, false, Option, none, some, List, [], ◌∷◌, ◌++◌, str_eq, ◌==◌,
  ◌&&◌, refl, if◌then◌else◌,
}
use carbon_veritas.Store.Schema.{
  User, Credit, Approval, Verifier, Offer, Trade, Retirement, BridgeRecord, Challenge, Certificate,
  Webhook, Db, user_by_pub, credit_by_number, offer_by_number, bridge_by_source,
}
use carbon_veritas.Store.Prisma.{PrismaClient, Clash}

-- An exception: one of NestJS with its message, one of Prisma, or one of an outside service.
pub data Failure : Type 0 where
  not_found bad_request forbidden unauthorized : String → Failure
  record_missing unique_conflict : Failure
  upstream : String → Failure

pub data Result (A : Type 0) : Type 0 where
  ok : A → Result A
  err : Failure → Result A

-- An event given to `EventEmitterService.emit`, by its type and the number that it is about.
pub record Emitted : Type 0 where
  pub event_type : String
  pub subject : ℕ

pub record World (C : Type 0) : Type 0 where
  pub db : Db
  -- how many identifiers the database has given out
  pub drawn : ℕ
  pub chain : C
  pub emitted : List Emitted

abbrev pub Action : Type 0 → Type 0 → Type 0
Action C A = World C → Result A × World C

module _ {C A : Type 0} where
  abbrev pub pure : A → Action C A
  pure a w = (ok a, w)

  abbrev pub throw : Failure → Action C A
  throw e w = (err e, w)

infixl 5 ◌>>=◌ ◌>>◌
abbrev pub ◌>>=◌ : {C A B : Type 0} → Action C A → (A → Action C B) → Action C B
◌>>=◌ m f w = let (r, w') = m w in elim r [ ok a ↦ f a w' | err e ↦ (err e, w') ]

abbrev pub ◌>>◌ : {C A B : Type 0} → Action C A → Action C B → Action C B
m >> k = m >>= λ _. k

module _ {C : Type 0} where
  -- `if (c) throw e`
  abbrev pub throw_if : Bool → Failure → Action C (Unit {0})
  throw_if true e w = (err e, w)
  throw_if false e w = (ok tt, w)

  -- `if (c) { … }`
  abbrev pub when : Bool → Action C (Unit {0}) → Action C (Unit {0})
  when true m w = m w
  when false m w = (ok tt, w)

  -- `if (!x) throw e`
  abbrev pub or_throw : {A : Type 0} → Option A → Failure → Action C A
  or_throw none e w = (err e, w)
  or_throw (some a) e w = (ok a, w)

  -- `EventEmitterService.emit`: it catches every exception of the delivery.
  abbrev pub emit : String → ℕ → Action C (Unit {0})
  emit event_type subject w = (
    ok tt,
    record w { emitted = w.emitted ++ record { event_type = event_type; subject = subject } ∷ [] },
  )

-- A table of the database, with the test of its unique columns.
pub record Table (Row : Type 0) : Type 0 where
  pub rows : Db → List Row
  pub set_rows : List Row → Db → Db
  pub clash : Clash Row

abbrev pub users : Table User
users = record {
  rows = λ d. d.users;
  set_rows = λ x d. record d { users = x };
  clash = λ a b. user_by_pub a.stellar_pub b;
}

abbrev pub credits : Table Credit
credits = record {
  rows = λ d. d.credits;
  set_rows = λ x d. record d { credits = x };
  clash = λ a b. credit_by_number a.credit_id b;
}

abbrev pub approvals : Table Approval
approvals = record {
  rows = λ d. d.approvals;
  set_rows = λ x d. record d { approvals = x };
  clash = λ a b. false;
}

abbrev pub verifiers : Table Verifier
verifiers = record {
  rows = λ d. d.verifiers;
  set_rows = λ x d. record d { verifiers = x };
  clash = λ a b. false;
}

abbrev pub offers : Table Offer
offers = record {
  rows = λ d. d.offers;
  set_rows = λ x d. record d { offers = x };
  clash = λ a b. offer_by_number a.offer_id b;
}

abbrev pub trades : Table Trade
trades = record {
  rows = λ d. d.trades;
  set_rows = λ x d. record d { trades = x };
  clash = λ a b. false;
}

abbrev pub retirements : Table Retirement
retirements = record {
  rows = λ d. d.retirements;
  set_rows = λ x d. record d { retirements = x };
  clash = λ a b. false;
}

abbrev pub bridge_records : Table BridgeRecord
bridge_records = record {
  rows = λ d. d.bridge_records;
  set_rows = λ x d. record d { bridge_records = x };
  clash = λ a b. bridge_by_source a.source_registry a.source_serial b;
}

abbrev pub challenges : Table Challenge
challenges = record {
  rows = λ d. d.challenges;
  set_rows = λ x d. record d { challenges = x };
  clash = λ a b. str_eq b.transaction a.transaction;
}

abbrev pub certificates : Table Certificate
certificates = record {
  rows = λ d. d.certificates;
  set_rows = λ x d. record d { certificates = x };
  clash = λ a b. false;
}

abbrev pub webhooks : Table Webhook
webhooks = record {
  rows = λ d. d.webhooks;
  set_rows = λ x d. record d { webhooks = x };
  clash = λ a b. false;
}

-- The client's operations as actions.
module _ (client : PrismaClient) {C Row : Type 0} (t : Table Row) where
  abbrev pub find_unique : (Row → Bool) → Action C (Option Row)
  find_unique p w = (ok (client.find_unique Row p (t.rows w.db)), w)

  abbrev pub find_many : (Row → Bool) → Action C (List Row)
  find_many p w = (ok (client.find_many Row p (t.rows w.db)), w)

  abbrev pub find_first : (Row → Bool) → Action C (Option Row)
  find_first p w = (ok (client.find_first Row p (t.rows w.db)), w)

  abbrev pub find_last : (Row → ℕ) → Action C (Option Row)
  find_last key w = (ok (client.find_last Row key (t.rows w.db)), w)

  abbrev pub count : (Row → Bool) → Action C ℕ
  count p w = (ok (client.count Row p (t.rows w.db)), w)

  -- The new row is given its identifier.
  abbrev pub create : (String → Row) → Action C Row
  create row w =
      let r = row (client.cuid w.drawn) in
      elim (client.create Row t.clash r (t.rows w.db)) [
        | none ↦ (err unique_conflict, w)
        | some rows ↦ (ok r, record w { db = t.set_rows rows w.db; drawn = w.drawn + 1 })
      ]

  abbrev pub update : (Row → Bool) → (Row → Row) → Action C Row
  update p f w = elim (client.update Row p f (t.rows w.db)) [
    | none ↦ (err record_missing, w)
    | some (r, rows) ↦ (ok r, record w { db = t.set_rows rows w.db })
  ]

  abbrev pub delete : (Row → Bool) → Action C (Unit {0})
  delete p w = elim (client.delete Row p (t.rows w.db)) [
    | none ↦ (err record_missing, w)
    | some rows ↦ (ok tt, record w { db = t.set_rows rows w.db })
  ]

  abbrev pub delete_many : (Row → Bool) → Action C (Unit {0})
  delete_many p w =
      (ok tt, record w { db = t.set_rows (client.delete_many Row p (t.rows w.db)) w.db })

  abbrev pub upsert : (Row → Bool) → (Row → Row) → (String → Row) → Action C Row
  upsert p f row w =
      let (r, rows) = client.upsert Row p f (row (client.cuid w.drawn)) (t.rows w.db) in
      (ok r, record w { db = t.set_rows rows w.db; drawn = w.drawn + 1 })
