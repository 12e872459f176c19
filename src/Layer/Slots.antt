-- ===== src/Layer/Slots.antt =====
-- Slots of nodes in a valid layer of pkg/store/lru2.go, and what the list of nodes asks of `put`.
use cache_learning_notes.Base.{
  ℕ, ◌-◌, ◌≤◌, ◌<◌, ◌≡◌, sym, ap, ◌∙◌, inl, inr, List, ◌∷◌, ◌++◌, none, Text, text_eq, arith,
  length, length-append, set, count, count-append, hit_self, ok, Exec, at, write, at-get_or,
  write-set, ◌==◌, Bool-cases,
}
use cache_learning_notes.Base.Dict.{lookup, delete, lookup-delete}
use cache_learning_notes.Base.Int.{ℤ}
use cache_learning_notes.Layer.Adjust.{IsOrder}
use cache_learning_notes.Layer.Cache.{Node, Value, Cache, Calls, slot, zero_node}
use cache_learning_notes.Layer.Model.{slot_lem, node, node-set_self, node-set_ne, Models, find-none}
use cache_learning_notes.Layer.Reorder.{absent}
use cache_learning_notes.Layer.Spec

pub count-to_front :
    (xs : List ℕ) (i : ℕ) (ys : List ℕ) (j : ℕ) → count j (i ∷ xs ++ ys) ≡ count j (xs ++ i ∷ ys)
unfolding count
count-to_front xs i ys j = omega (arith, count-append j xs ys, count-append j xs (i ∷ ys))

pub length-to_front :
    (xs : List ℕ) (i : ℕ) (ys : List ℕ) → length (i ∷ xs ++ ys) ≡ length (xs ++ i ∷ ys)
length-to_front xs i ys = omega (arith, length-append xs ys, length-append xs (i ∷ ys))

-- The other nodes are neither `i` nor the sentinel.
pub once_around :
    (xs : List ℕ) (i : ℕ) (ys : List ℕ) {size : ℕ}
    → IsOrder (xs ++ i ∷ ys) size
    → (count 0 (xs ++ ys) ≡ 0) × (count i (xs ++ ys) ≡ 0)
unfolding count
once_around xs i ys o = (
  omega (arith, o.no_zero, count-append 0 xs ys, count-append 0 xs (i ∷ ys)),
  omega (arith, o.once i, hit_self i, count-append i xs ys, count-append i xs (i ∷ ys)),
)

pub lookup-delete-none :
    (k key : Text) (hmap : List (Text × ℕ))
    → lookup key hmap ≡ none
    → lookup key (delete k hmap) ≡ none
lookup-delete-none k key hmap h = ground (arith, lookup-delete k key hmap)

module _ {V : Type 0} where
  -- In a valid layer the slot of a node is read and written without a panic.
  pub slot_reads :
      (m : List (Node V)) (i : ℕ)
      → 0 < i
      → i ≤ length m
      → length m < 65535
      → at m (slot i) ≡ ok (node m i)
  unfolding node
  slot_reads m i p h small =
      rw (slot_lem i p (omega arith)) (at-get_or m (i - 1) zero_node (omega arith))

  pub slot_writes :
      (m : List (Node V)) (i : ℕ) (e : Node V)
      → 0 < i
      → i ≤ length m
      → length m < 65535
      → write m (slot i) e ≡ ok (set m (i - 1) e)
  slot_writes m i e p h small =
      rw (slot_lem i p (omega arith)) (write-set m (i - 1) e (omega arith))

  -- Writing a node that keeps its key changes no node's key.
  pub names_kept :
      (m : List (Node V)) (i : ℕ) (e : Node V) (ids : List ℕ)
      → 0 < i
      → e.k ≡ (node m i).k
      → i ≤ length m
      → count 0 ids ≡ 0
      → (j : ℕ) → 0 < count j ids
      → (node (set m (i - 1) e) j).k ≡ (node m j).k
  names_kept m i e ids p k h z j there = elim (Bool-cases (i == j)) [
    | inl same ↦ let eq : i ≡ j = ground arith in rw (← eq, node-set_self m i e p h) k
    | inr other ↦ ap Node.k (node-set_ne m i j e p (ground (arith, z, there)) (ground arith))
  ]

  -- The outcome of `put` that the list of nodes asks for.
  abbrev pub Puts : Exec (Cache V × ℕ × Calls V) → ℕ → List (Node V) × ℕ × Calls V → Type 0
  Puts run size r = (c' : Cache V) × (run ≡ ok (c', r.1, r.2)) × Models c' size r.0

  abbrev pub new_node : Text → Value V → ℤ → Node V
  new_node key val e = record { k = key; v = val; expire_at = e }

  -- A method's outcome that the list of nodes asks for.
  abbrev pub Gives {ℓ} : {R : Type ℓ} → Exec (Cache V × R) → ℕ → List (Node V) × R → Type ℓ
  Gives run size r = (c' : Cache V) × (run ≡ ok (c', r.1)) × Models c' size r.0

  -- A key that the map does not hold is the key of no node.
  module _ (c : Cache V) (size : ℕ) (s : List (Node V)) (key : Text) (model : Models c size s) where
    pub unknown : lookup key c.hmap ≡ none → Spec.find key s ≡ none
    unknown miss =
        ap (Spec.find key) (sym model.view)
        ∙ find-none c.m key model.ids (absent c model.ids model.valid key miss)
