-- ===== src/Store/Model.antt =====
-- When a bucket of pkg/store/lru2.go stands for two lists of nodes, and which entry of a key it
-- shows: that of the first level, or else that of the second.

use cache_learning_notes.Base.{
  ℕ, ◌≡◌, ◌≢◌, sym, ap, ◌∙◌, inl, inr, List, Option, none, some, Bool, true, Text, if◌then◌else◌,
  Bool-cases, Option-cases, some_eq,
}
use cache_learning_notes.Base.Int.{ℤ, pos}
use cache_learning_notes.Layer.Cache.{Node, Value, positive}
use cache_learning_notes.Layer.Model.{Models}
use cache_learning_notes.Layer.Reads.{
  Distinct, victim, find-put_self, find-put_ne, find-get, find-del_self, find-del_ne,
}
use cache_learning_notes.Layer.Spec
use cache_learning_notes.Layer.Spec.{find}
use cache_learning_notes.Store.Bucket.{Bucket}

module _ {V : Type 0} where
  pub record BucketModels (b : Bucket V) (size₁ size₂ : ℕ) (s₁ s₂ : List (Node V)) : Type 0 where
    pub first : Models b.level1 size₁ s₁
    pub second : Models b.level2 size₂ s₂

  abbrev pub if_positive : Option (Node V) → Option (Node V)
  if_positive none = none
  if_positive (some e) = if positive e.expire_at then some e else none

  pub if_positive-some :
      (o : Option (Node V)) (x : Node V)
      → if_positive o ≡ some x
      → (o ≡ some x) × (positive x.expire_at ≡ true)
  if_positive-some none x h = cc
  if_positive-some (some y) x h = elim (Bool-cases (positive y.expire_at)) [
    | inl alive ↦
        let same : y ≡ x = some_eq (rw alive at h) in
        (ap some same, ap (λ z. positive (Node.expire_at z)) (sym same) ∙ alive)
    | inr dead ↦ cc (rw dead at h)
  ]

  -- The valid node of a key.
  unfoldable pub valid : Text → List (Node V) → Option (Node V)
  valid q s = if_positive (find q s)

  abbrev pub or_else : Option (Node V) → Option (Node V) → Option (Node V)
  or_else none o = o
  or_else (some e) _ = some e

  -- The entry of a key that the bucket shows.
  abbrev pub visible : Text → List (Node V) → List (Node V) → Option (Node V)
  visible q s₁ s₂ = or_else (valid q s₁) (valid q s₂)

  abbrev pub entry : Text → Value V → ℤ → Node V
  entry key val e = record { k = key; v = val; expire_at = e }

  module _ (size : ℕ) (key : Text) (val : Value V) (e : ℤ) (cb : Bool) (s : List (Node V)) where
    pub valid-put_self :
        valid key (Spec.put size key val e cb s).0
        ≡ (if positive e then some (entry key val e) else none)
    unfolding valid
    valid-put_self = ap if_positive (find-put_self size key val e cb s)

    pub valid-put_ne :
        (q : Text)
        → q ≢ key
        → ((x : Node V) → victim size key s ≡ some x → x.k ≢ q)
        → valid q (Spec.put size key val e cb s).0 ≡ valid q s
    unfolding valid
    valid-put_ne q apart safe = ap if_positive (find-put_ne size key val e cb s q apart safe)

  module _ (key : Text) (s : List (Node V)) where
    pub valid-get : (q : Text) → valid q (Spec.get key s).0 ≡ valid q s
    unfolding valid
    valid-get q = ap if_positive (find-get key s q)

    pub valid-del_self : Distinct s → valid key (Spec.del key s).0 ≡ none
    unfolding valid
    valid-del_self d = elim (Option-cases (find key (Spec.del key s).0)) [
      | inl gone ↦ ap if_positive gone
      | inr (e, found) ↦ ap if_positive found ∙ rw (find-del_self key s d e found)
    ]

    pub valid-del_ne : (q : Text) → q ≢ key → valid q (Spec.del key s).0 ≡ valid q s
    unfolding valid
    valid-del_ne q apart = ap if_positive (find-del_ne key s q apart)

    -- `del` answers with the key's valid node, and with its old expiration.
    pub del-found :
        (e : Node V)
        → valid key s ≡ some e
        → ((Spec.del key s).1 ≡ some (record e { expire_at = pos 0 }, e.expire_at))
          × (positive e.expire_at ≡ true)
    unfolding valid
    del-found e h = elim (Option-cases (find key s)) [
      | inl unknown ↦ let clash : none ≡ some e = sym (ap if_positive unknown) ∙ h in cc
      | inr (x, known) ↦ elim (Bool-cases (positive x.expire_at)) [
        | inl alive ↦
            let same : x ≡ e = some_eq (sym (ap if_positive known ∙ rw alive) ∙ h) in
            (rw (Spec.del-alive key s known alive, same), rw (← same) alive)
        | inr gone ↦ let clash : none ≡ some e = sym (ap if_positive known ∙ rw gone) ∙ h in cc
      ]
    ]

    pub del-missing : valid key s ≡ none → Spec.del key s ≡ (s, none)
    unfolding valid
    del-missing h = elim (Option-cases (find key s)) [
      | inl unknown ↦ Spec.del-unknown key s unknown
      | inr (x, known) ↦ elim (Bool-cases (positive x.expire_at)) [
        | inl alive ↦ let clash : some x ≡ none = sym (ap if_positive known ∙ rw alive) ∙ h in cc
        | inr gone ↦ Spec.del-dead key s known gone
      ]
    ]
