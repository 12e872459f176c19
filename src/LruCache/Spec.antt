-- ===== src/LruCache/Spec.antt =====
-- What `LruCache` of pkg/store/lru.go promises: a list of entries with distinct keys, the most
-- recently used first, that gives up its oldest entries while it counts too many bytes.
use cache_learning_notes.Base.{
  ℕ, ◌+◌, List, [], ◌∷◌, ◌++◌, Option, none, some, Bool, true, false, Text, text_eq, ◌=?◌, length,
  if◌then◌else◌, reverse,
}
use cache_learning_notes.Base.Int.{ℤ, pos, ◌+ℤ◌, ◌-ℤ◌, wrap64, ltb_ℤ}
use cache_learning_notes.Layer.Cache.{Calls}
use cache_learning_notes.LruCache.Cache.{LruEntry}

module _ {V : Type 0} where
  unfoldable pub find : Text → List (LruEntry V) → Option (LruEntry V)
  find key [] = none
  find key (e ∷ s) = if e.key =? key then some e else find key s

  unfoldable pub remove : Text → List (LruEntry V) → List (LruEntry V)
  remove key [] = []
  remove key (e ∷ s) = if e.key =? key then s else e ∷ remove key s

  unfoldable pub get : Text → List (LruEntry V) → List (LruEntry V) × Option V × Calls V
  unfolding find remove
  get key s = elim (find key s) [
    | none ↦ (s, none, [])
    | some e ↦ (e ∷ remove key s, some e.value, [])
  ]

  unfoldable pub has : Text → List (LruEntry V) → Bool
  unfolding find
  has key s = elim (find key s) [ none ↦ false | some _ ↦ true ]

  abbrev pub calls_of : Bool → Option (LruEntry V) → Calls V
  calls_of has_callback none = []
  calls_of has_callback (some e) = if has_callback then (e.key, some e.value) ∷ [] else []

  -- The callback for each of the entries, in order.
  unfoldable pub calls : Bool → List (LruEntry V) → Calls V
  calls has_callback [] = []
  calls has_callback (e ∷ s) =
      (if has_callback then (e.key, some e.value) ∷ [] else []) ++ calls has_callback s

-- The entries that are kept, the oldest first; the bytes that are then counted; the entries that
-- are given up, in order.
pub record Trimmed (V : Type 0) : Type 0 where
  pub kept : List (LruEntry V)
  pub used : ℤ
  pub dropped : List (LruEntry V)

module _ {V : Type 0} (size : V → ℕ) where
  unfoldable pub trim : ℤ → ℤ → List (LruEntry V) → Trimmed V
  trim max used [] = record { kept = []; used = used; dropped = [] }
  trim max used (e ∷ s) =
      let bytes = pos (length e.key + size e.value) in
      let r = trim max (wrap64 (wrap64 (used -ℤ bytes) -ℤ bytes)) s in
      if ltb_ℤ max used
      then record r { dropped = e ∷ r.dropped }
      else record { kept = e ∷ s; used = used; dropped = [] }

  -- The bytes that are counted once entries are given up: each is subtracted twice.
  unfoldable pub counted : ℤ → List (LruEntry V) → ℤ
  counted used [] = used
  counted used (e ∷ s) =
      let bytes = pos (length e.key + size e.value) in
      counted (wrap64 (wrap64 (used -ℤ bytes) -ℤ bytes)) s

  -- A limit that is not positive is none.
  unfoldable pub evict : ℤ → ℤ → List (LruEntry V) → Trimmed V
  unfolding trim
  evict max used s =
      if ltb_ℤ (pos 0) max then trim max used s else record { kept = s; used = used; dropped = [] }

  -- The bytes that are counted once an entry is written, before any is given up.
  unfoldable pub written : ℤ → Text → V → List (LruEntry V) → ℤ
  unfolding find
  written used key value s = elim (find key s) [
    | some e ↦
        wrap64 (wrap64 (used -ℤ pos (length key + size e.value)) +ℤ pos (length key + size value))
    | none ↦ wrap64 (used +ℤ pos (length key + size value))
  ]

  -- The entry goes to the front, in place of the one that has its key.
  unfoldable pub set : ℤ → ℤ → Text → V → List (LruEntry V) → Trimmed V
  unfolding evict remove written
  set max used key value s =
      evict max (written used key value s)
        (reverse (record { key = key; value = value } ∷ remove key s))

  unfoldable pub set_with_expiration : ℤ → ℤ → Text → V → List (LruEntry V) → Trimmed V
  unfolding evict remove find
  set_with_expiration max used key value s =
      let used' : ℤ = elim (find key s) [
        | some e ↦ wrap64 (used +ℤ (pos (size value) -ℤ pos (size e.value)))
        | none ↦ wrap64 (used +ℤ pos (length key + size value))
      ] in
      evict max used' (reverse (record { key = key; value = value } ∷ remove key s))
