-- ===== src/Layer/Victim.antt =====
-- The node that a write to a full layer of pkg/store/lru2.go displaces.

use cache_learning_notes.Base.{
  ℕ, ◌≡◌, ◌≢◌, refl, sym, ap, ◌∙◌, subst, inl, inr, List, [], ◌∷◌, ◌++◌, none, some, Bool, Text,
  text_eq, ◌=?◌, =?_refl, arith, some_eq, length, ◌==◌, Bool-cases, Option-cases,
}
use cache_learning_notes.Base.Int.{ℤ}
use cache_learning_notes.Layer.Cache.{Node, Value}
use cache_learning_notes.Layer.Model.{split_last, pop_back-append}
use cache_learning_notes.Layer.Reads.{Distinct, victim, find-append_last, find-cons_ne}
use cache_learning_notes.Layer.Spec
use cache_learning_notes.Layer.Spec.{find, pop_back, evictions}

popped-append {ℓ} :
    {A : Type ℓ} (s : List A) {rest : List A} {x : A}
    → pop_back s ≡ some (rest, x)
    → s ≡ rest ++ x ∷ []
unfolding pop_back
popped-append [] h = cc
popped-append (y ∷ s) {rest} {x} h =
    let (xs, z, split) = split_last (y ∷ s) (omega arith) in
    let pair : (xs, z) ≡ (rest, x) = some_eq (sym (ap pop_back split ∙ pop_back-append xs z) ∙ h) in
    split ∙ ap (λ p. p.0 ++ p.1 ∷ []) pair

module _ {V : Type 0} where
  find-append-none :
      (q : Text) (s : List (Node V)) (e : Node V)
      → find q (s ++ e ∷ []) ≡ none
      → (find q s ≡ none) × (e.k ≢ q)
  unfolding find
  find-append-none q [] e h = (refl, λ same. ground (arith, =?_refl q))
  find-append-none q (x ∷ s) e h = elim (Bool-cases (x.k =? q)) [
    | inl same ↦ cc (rw same at h)
    | inr other ↦ rw other (find-append-none q s e (rw other at h))
  ]

  Distinct-last : (s : List (Node V)) (e : Node V) → Distinct (s ++ e ∷ []) → find e.k s ≡ none
  unfolding find
  Distinct-last [] e d = refl
  Distinct-last (x ∷ s) e d =
      let apart = (find-append-none x.k s e d.0).1 in
      find-cons_ne e.k x s (λ p. apart (sym p)) ∙ Distinct-last s e d.1

  -- A displaced node is the last of a full list that does not have the new key.
  pub record Displaced (size : ℕ) (key : Text) (s : List (Node V)) (x : Node V) : Type 0 where
    pub rest : List (Node V)
    pub unknown : find key s ≡ none
    pub full : length s ≡ size
    pub popped : pop_back s ≡ some (rest, x)
    pub found : find x.k s ≡ some x
    pub only : find x.k rest ≡ none

  pub victim-Displaced :
      (size : ℕ) (key : Text) (s : List (Node V)) (x : Node V)
      → Distinct s
      → victim size key s ≡ some x
      → Displaced size key s x
  unfolding victim
  victim-Displaced size key s x d h = elim (Option-cases (find key s)) [
    | inr (e, known) ↦ cc (rw (known, victim) at h)
    | inl unknown ↦ elim (Bool-cases (length s == size)) [
      | inr room ↦ cc (rw (unknown, victim, room) at h)
      | inl full ↦ elim (Option-cases (pop_back s)) [
        | inl empty ↦ cc (rw (unknown, victim, full, empty) at h)
        | inr ((rest, y), popped) ↦
            let same : y ≡ x = some_eq (rw (unknown, victim, full, popped) at h) in
            let last = subst (λ z. pop_back s ≡ some (rest, z)) same popped in
            let split = popped-append s last in
            let only = Distinct-last rest x (subst Distinct split d) in
            record {
              rest = rest;
              unknown = unknown;
              full = ground arith;
              popped = last;
              found = ap (find x.k) split ∙ find-append_last x.k rest x only refl;
              only = only;
            }
      ]
    ]
  ]

  -- After the write the displaced node's key is gone.
  pub find-put-Displaced :
      (size : ℕ) (key : Text) (val : Value V) (e : ℤ) (cb : Bool) (s : List (Node V)) (x : Node V)
      → Displaced size key s x
      → (find x.k (Spec.put size key val e cb s).0 ≡ none)
        × ((Spec.put size key val e cb s).2 ≡ evictions cb x)
  find-put-Displaced size key val e cb s x gone =
      let entry : Node V = record { k = key; v = val; expire_at = e } in
      let apart : key ≢ x.k = λ p.
        let clash : none ≡ some x = sym gone.unknown ∙ ap (λ z. find z s) p ∙ gone.found in cc in
      rw (Spec.put-full size key val e cb s gone.unknown gone.full gone.popped)
        (find-cons_ne x.k entry gone.rest apart ∙ gone.only, refl)
