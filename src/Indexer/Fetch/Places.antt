-- ===== src/Indexer/Fetch/Places.antt =====
-- The places of events in the chain, and lists of events whose places go up.
use carbon_veritas.Base.{◌<◌, ◌≡◌, ◌⊎◌, ◌↔◌, true, false, List, [], ◌∷◌, ◌++◌, arith}
use carbon_veritas.Indexer.Fetch.{SyncCursor, is_covered, is_ahead}

-- The order of places in the chain: by ledger, then by transaction.
abbrev pub Before : SyncCursor → SyncCursor → Type 0
Before a b =
    (a.ledger_sequence < b.ledger_sequence)
    ⊎ (a.ledger_sequence ≡ b.ledger_sequence) × (a.tx_index < b.tx_index)

abbrev pub NotAfter : SyncCursor → SyncCursor → Type 0
NotAfter a b = Before a b ⊎ (a ≡ b)

NotAfter-trans : (a b c : SyncCursor) → NotAfter a b → NotAfter b c → NotAfter a c
NotAfter-trans a b c h k = ground arith

pub not_covered-Before : (a b : SyncCursor) → is_covered a b ≡ false → Before a b
unfolding is_covered
not_covered-Before a b h = ground arith

pub is_ahead_iff : (a b : SyncCursor) → (is_ahead a b ≡ true) ↔ Before a b
unfolding is_ahead
is_ahead_iff a b = (λ h. ground arith, λ h. ground arith)

pub not_ahead-NotAfter : (a b : SyncCursor) → is_ahead a b ≡ false → NotAfter b a
unfolding is_ahead
not_ahead-NotAfter a b h = ground arith

module _ {E : Type 0} (at : E → SyncCursor) where
  -- The places go strictly up, all after `lo` and none after `hi`.
  abbrev pub Ascends : SyncCursor → List E → SyncCursor → Type 0
  Ascends lo [] hi = NotAfter lo hi
  Ascends lo (e ∷ es) hi = Before lo (at e) × Ascends (at e) es hi

  pub Ascends-widen :
      (lo : SyncCursor) (es : List E) (mid hi : SyncCursor)
      → Ascends lo es mid
      → NotAfter mid hi
      → Ascends lo es hi
  Ascends-widen lo [] mid hi h k = NotAfter-trans lo mid hi h k
  Ascends-widen lo (e ∷ es) mid hi (h, hs) k = (h, Ascends-widen (at e) es mid hi hs k)

  pub Ascends-append :
      (lo : SyncCursor) (es fs : List E) (mid hi : SyncCursor)
      → Ascends lo es mid
      → Ascends mid fs hi
      → Ascends lo (es ++ fs) hi
  Ascends-append lo [] [] mid hi h k = NotAfter-trans lo mid hi h k
  Ascends-append lo [] (f ∷ fs) mid hi h (k, ks) = (ground arith, ks)
  Ascends-append lo (e ∷ es) fs mid hi (h, hs) k = (h, Ascends-append (at e) es fs mid hi hs k)
