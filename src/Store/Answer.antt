-- ===== src/Store/Answer.antt =====
-- What `Get` of pkg/store/lru2.go answers and leaves, read from the lists of nodes of a bucket.
use cache_learning_notes.Base.{
  ℕ, ◌≡◌, ◌≢◌, sym, ap, ◌∙◌, inl, inr, List, Option, none, some, Bool, true, false, not, ◌||◌, Text,
  arith, if◌then◌else◌, Option-cases, Bool-cases, some_eq,
}
use cache_learning_notes.Base.Int.{ℤ}
use cache_learning_notes.Layer.Cache.{Node, Value, positive}
use cache_learning_notes.Layer.Reads.{victim, find-key}
use cache_learning_notes.Layer.Spec
use cache_learning_notes.Store.Bucket.{past, unless_stale}
use cache_learning_notes.Store.Model.{if_positive, entry, valid, visible}

module _ {V : Type 0} where
  -- What `Get` answers: the value of the visible entry, unless it has expired. The second level is
  -- read with two readings of the clock.
  unfoldable pub answer : ℤ → ℤ → Option (Node V) → Option (Node V) → Option (Value V)
  answer now now' (some e) o = if past now e.expire_at then none else some e.v
  answer now now' none none = none
  answer now now' none (some e) =
      if past now' e.expire_at || past now e.expire_at then none else some e.v

  -- Whether an entry of the first level moves to the second: it is there and has not expired.
  abbrev pub moves : ℤ → Option (Node V) → Bool
  moves now none = false
  moves now (some e) = not (past now e.expire_at)

  -- What `Get` leaves behind.
  pub record Got (size₂ : ℕ) (key : Text) (now : ℤ) (s₁ s₂ t₁ t₂ : List (Node V))
      (result : Option (Value V)) : Type 0 where
    pub promoted : valid key t₁ ≡ none
    pub kept : (v : Value V) → result ≡ some v → visible key t₁ t₂ ≡ visible key s₁ s₂
    pub others :
        (q : Text)
        → q ≢ key
        → (moves now (valid key s₁) ≡ true → (x : Node V) → victim size₂ key s₂ ≡ some x → x.k ≢ q)
        → visible q t₁ t₂ ≡ visible q s₁ s₂

  pub valid-entry :
      (key : Text) (s : List (Node V)) (e : Node V)
      → valid key s ≡ some e
      → e ≡ entry key e.v e.expire_at
  unfolding valid
  valid-entry key s e h = elim (Option-cases (Spec.find key s)) [
    | inl unknown ↦ let clash : none ≡ some e = sym (ap if_positive unknown) ∙ h in cc
    | inr (x, known) ↦ elim (Bool-cases (positive x.expire_at)) [
      | inr gone ↦ let clash : none ≡ some e = sym (ap if_positive known ∙ rw gone) ∙ h in cc
      | inl alive ↦
          let same : x ≡ e = some_eq (sym (ap if_positive known ∙ rw alive) ∙ h) in
          let named : e.k ≡ key = ap Node.k (sym same) ∙ find-key key s known in
          λ i. record { k = named i; v = e.v; expire_at = e.expire_at }
    ]
  ]

  abbrev pub unless_past : ℤ → Option (Node V) → Option (Node V)
  unless_past now none = none
  unless_past now (some e) = if past now e.expire_at then none else some e

  -- What `_get` reads from the list of nodes.
  pub level2_lem :
      (key : Text) (s : List (Node V)) (now : ℤ)
      → unless_stale now (Spec.get key s).1 ≡ unless_past now (valid key s)
  unfolding valid unless_stale
  level2_lem key s now = elim (Option-cases (Spec.find key s)) [
    | inl unknown ↦ rw (Spec.get-unknown key s unknown, unknown)
    | inr (e, known) ↦ rw (Spec.get-known key s known, known) (ground arith)
  ]
