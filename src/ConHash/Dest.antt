-- ===== src/ConHash/Dest.antt =====
-- The address that `Get` of internal/consistenthash/con_hash.go answers with, and its owner.
use cache_learning_notes.Base.{
  ℕ, ◌≡◌, sym, ap, ◌∙◌, List, [], ◌∷◌, Option, some, false, Text, text_eq, nat_eq, ◌=?◌, =?_refl,
  arith, ok, if◌then◌else◌, inl, inr, Bool-cases, Option-cases, length, ◌==◌,
}
use cache_learning_notes.Base.Dict.{lookup}
use cache_learning_notes.Base.Int.{ℤ, pos, ◌+ℤ◌, wrap64}
use cache_learning_notes.ConHash.Lookup.{Sorted, successor, routed, get-successor}
use cache_learning_notes.ConHash.Map
use cache_learning_notes.ConHash.Map.{Map, or_empty}

-- The address that a ring answers with for a key.
abbrev pub dest : Map → Text → Text
dest m key = if length m.keys == 0 then [] else routed m (m.config.hash_func key) m.keys

-- `Get` of the ring: only the load changes.
pub ring_get :
    (m : Map) (key : Text)
    → Sorted m.keys
    → (n : ℤ) × (Map.get m key ≡ ok (record m { self_load = n }, dest m key))
ring_get m key s = elim (Bool-cases (length m.keys == 0)) [
  | inl h ↦ (m.self_load, get-successor m key s ∙ rw h)
  | inr h ↦ elim (Bool-cases (routed m (m.config.hash_func key) m.keys =? m.self_addr)) [
    | inl e ↦ (wrap64 (m.self_load +ℤ pos 1), get-successor m key s ∙ rw (h, e))
    | inr e ↦ (m.self_load, get-successor m key s ∙ rw (h, e))
  ]
]

routed_owner :
    (m : Map) (hash : ℕ) (ks : List ℕ)
    → (routed m hash ks =? []) ≡ false
    → (k : ℕ) × (lookup k m.hash_map ≡ some (routed m hash ks))
unfolding or_empty
routed_owner m hash [] h = let r = =?_refl {A = Text} [] in absurd (ground arith)
routed_owner m hash (x ∷ ks) h =
    let k = successor hash (x ∷ ks) x in
    elim (Option-cases (lookup k m.hash_map)) [
      | inl e ↦
          let empty : routed m hash (x ∷ ks) ≡ [] = ap or_empty e in
          absurd (ground (arith, text_eq.beq_iff (routed m hash (x ∷ ks)) []))
      | inr (a, e) ↦ (k, e ∙ ap (λ (o : Option Text). some (or_empty o)) (sym e))
    ]

-- An address that is not empty is that of an owner.
pub dest-owner :
    (m : Map) (key : Text)
    → (dest m key =? []) ≡ false
    → (k : ℕ) × (lookup k m.hash_map ≡ some (dest m key))
dest-owner m key h = elim (Bool-cases (length m.keys == 0)) [
  | inl e ↦
      let empty : dest m key ≡ [] = rw e in absurd (ground (arith, text_eq.beq_iff (dest m key) []))
  | inr e ↦
      let is : dest m key ≡ routed m (m.config.hash_func key) m.keys = rw e in
      let h' : (routed m (m.config.hash_func key) m.keys =? []) ≡ false =
        ap (λ (x : Text). x =? []) (sym is) ∙ h in
      let (k, owner) = routed_owner m (m.config.hash_func key) m.keys h' in
      (k, owner ∙ ap (λ (x : Text). some x) (sym is))
]
