-- ===== src/Store.antt =====
-- `InMemoryStore` of gateway/store.py, over the types of receipts, of stored objects and of anchor
-- records. A receipt carries its `receipt_hash`, which is "" when the key is missing; the time stamp
-- that `save_stats` adds is left out.
pub mod Entries
pub mod Saved
pub mod Tests
use agent_authorization_gate.Base.{Option, none, some, List, [], ◌∷◌, ◌++◌, Str, codes, starts_with}
use agent_authorization_gate.Base.Dict.{Dict, lookup, insert}

pub record StoredReceipt {ℓ} (R : Type ℓ) : Type ℓ where
  pub receipt_hash : Str
  pub content : R

-- The values of `_stats`: objects, and the list of anchor records.
pub data StatsValue {ℓ} (V : Type ℓ) : Type ℓ where
  object : V → StatsValue V
  anchors : List V → StatsValue V

pub record InMemoryStore {ℓ κ} (R : Type ℓ) (V : Type κ) : Type (ℓ ⊔ κ) where
  pub receipts : Dict (List (StoredReceipt R))
  pub receipt_index : Dict (StoredReceipt R)
  pub keys : Dict V
  pub stats : Dict (StatsValue V)
  pub liveness : Dict V

-- `f"{tenant}:{name}"`
unfoldable pub key : Str → Str → Str
key tenant name = tenant ++ b':' ∷ name

abbrev pub or_empty {ℓ} : {A : Type ℓ} → Option (List A) → List A
or_empty none = []
or_empty (some xs) = xs

abbrev pub index_receipt {ℓ} :
    {R : Type ℓ} → Str → StoredReceipt R → Str → Dict (StoredReceipt R) → Dict (StoredReceipt R)
index_receipt tenant r [] index = index
index_receipt tenant r (c ∷ s) index = insert (key tenant (c ∷ s)) r index

-- `self._stats[key].append(record)`; where an object stands under the key, the call raises.
unfoldable pub append_anchor {ℓ} : {V : Type ℓ} → Option (StatsValue V) → V → Option (StatsValue V)
append_anchor none v = some (anchors (v ∷ []))
append_anchor (some (anchors vs)) v = some (anchors (vs ++ v ∷ []))
append_anchor (some (object o)) v = none

module _ {ℓ κ} {R : Type ℓ} {V : Type κ} where
  abbrev pub get_chain : Str → InMemoryStore R V → List (StoredReceipt R)
  get_chain tenant s = or_empty (lookup tenant s.receipts)

  unfoldable pub save_receipt : Str → StoredReceipt R → InMemoryStore R V → InMemoryStore R V
  save_receipt tenant r s = record s {
    receipts = insert tenant (get_chain tenant s ++ r ∷ []) s.receipts;
    receipt_index = index_receipt tenant r r.receipt_hash s.receipt_index;
  }

  abbrev pub get_receipt : Str → Str → InMemoryStore R V → Option (StoredReceipt R)
  get_receipt tenant hash s = lookup (key tenant hash) s.receipt_index

  abbrev pub save_keys : Str → V → InMemoryStore R V → InMemoryStore R V
  save_keys tenant v s = record s { keys = insert tenant v s.keys }

  abbrev pub save_stats : Str → V → InMemoryStore R V → InMemoryStore R V
  save_stats tenant v s = record s { stats = insert tenant (object v) s.stats }

  abbrev pub get_stats : Str → InMemoryStore R V → Option (StatsValue V)
  get_stats tenant s = lookup tenant s.stats

  abbrev pub save_policy : Str → V → InMemoryStore R V → InMemoryStore R V
  save_policy tenant v s = record s {
    stats = insert (key tenant (codes "policy")) (object v) s.stats;
  }

  abbrev pub get_policy : Str → InMemoryStore R V → Option (StatsValue V)
  get_policy tenant s = lookup (key tenant (codes "policy")) s.stats

  abbrev pub save_rate_limits : Str → V → InMemoryStore R V → InMemoryStore R V
  save_rate_limits tenant v s = record s {
    stats = insert (key tenant (codes "rate_limits")) (object v) s.stats;
  }

  abbrev pub get_rate_limits : Str → InMemoryStore R V → Option (StatsValue V)
  get_rate_limits tenant s = lookup (key tenant (codes "rate_limits")) s.stats

  -- `save_anchor_record`; `none` is a call that raises.
  unfoldable pub save_anchor_record : Str → V → InMemoryStore R V → Option (InMemoryStore R V)
  save_anchor_record tenant v s =
      elim (append_anchor (lookup (key tenant (codes "anchors")) s.stats) v) [
        | none ↦ none
        | some kept ↦ some (record s { stats = insert (key tenant (codes "anchors")) kept s.stats })
      ]
