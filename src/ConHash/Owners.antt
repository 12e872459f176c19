-- ===== src/ConHash/Owners.antt =====
-- The owners of the points of internal/consistenthash/con_hash.go, under `Add` and for `Get`.
use cache_learning_notes.Base.{
  ℕ, ◌+◌, ◌<◌, ◌≡◌, ◌≢◌, refl, sym, ap, ◌∙◌, ◌⊎◌, inl, inr, List, [], ◌∷◌, some, false, Text,
  text_eq, nat_eq, arith, count, hit_self, length, ltb, leb, ==_ne, Bool-cases, ok,
}
use cache_learning_notes.Base.Dict.{lookup}
use cache_learning_notes.Base.Int.{ℤ}
use cache_learning_notes.ConHash.Lookup.{Sorted, successor, counted, get-successor, routed}
use cache_learning_notes.ConHash.Map
use cache_learning_notes.ConHash.Map.{Map, is_present, or_empty}
use cache_learning_notes.ConHash.Members.{add_node-IsAdded, points_of}

-- Every point has an owner.
abbrev pub Owned : Map → Type 0
Owned m = (k : ℕ) → 0 < count k m.keys → (a : Text) × (lookup k m.hash_map ≡ some a)

old_lem :
    (k : ℕ) (xs ys zs : List ℕ)
    → 0 < count k zs
    → count k zs ≡ count k xs + count k ys
    → ltb 0 (count k ys) ≡ false
    → 0 < count k xs
old_lem k xs ys zs there sum old = ground arith

add_node-Owned : (m : Map) (addr : Text) (n : ℤ) → Owned m → Owned (Map.add_node m addr n)
add_node-Owned m addr n owned k there =
    let a = add_node-IsAdded m addr n in
    elim (Bool-cases (ltb 0 (count k (points_of m addr n)))) [
      | inl new ↦ (addr, a.owners k ∙ rw new refl)
      | inr old ↦
          let (b, is) = owned k (old_lem k m.keys (points_of m addr n) _ there (a.counts k) old) in
          (b, a.owners k ∙ rw old is)
    ]

-- `Add` gives every point an owner, if every point had one.
pub add-Owned : (m : Map) (addr : Text) → Owned m → Owned (Map.add m addr)
unfolding Map.add
add-Owned m addr owned = elim (Bool-cases (is_present (lookup addr m.node_replicas))) [
  | inl there ↦ rw (there, Map.add) owned
  | inr new ↦ rw (new, Map.add) (add_node-Owned m addr m.config.default_replicas owned)
]

count-successor :
    (value : ℕ) (xs : List ℕ) (start : ℕ)
    → (0 < count (successor value xs start) xs) ⊎ (successor value xs start ≡ start)
unfolding successor count
count-successor value [] start = inr refl
count-successor value (x ∷ xs) start = elim (Bool-cases (leb value x)) [
  | inl e ↦
      let found : successor value (x ∷ xs) start ≡ x = rw e refl in
      inl (omega (arith, hit_self x, ap (λ z. count z (x ∷ xs)) found))
  | inr e ↦
      let same : successor value (x ∷ xs) start ≡ successor value xs start = rw e refl in
      elim (count-successor value xs start) [
        | inl there ↦ inl (omega (arith, there, ap (λ z. count z (x ∷ xs)) same))
        | inr first ↦ inr (same ∙ first)
      ]
]

routed_lem :
    (m : Map) (hash : ℕ) (ks : List ℕ)
    → length ks ≢ 0
    → ((k : ℕ) → 0 < count k ks → (a : Text) × (lookup k m.hash_map ≡ some a))
    → (k : ℕ) × (0 < count k ks) × (lookup k m.hash_map ≡ some (routed m hash ks))
unfolding or_empty count
routed_lem m hash [] h owned = absurd (h refl)
routed_lem m hash (x ∷ ks) h owned =
    let k = successor hash (x ∷ ks) x in
    let there : 0 < count k (x ∷ ks) = elim (count-successor hash (x ∷ ks) x) [
      | inl known ↦ known
      | inr same ↦ omega (arith, hit_self x, ap (λ z. count z (x ∷ ks)) same)
    ] in
    let (a, is) = owned k there in (k, there, is ∙ ap (λ o. some (or_empty o)) (sym is))

-- On a ring with points, all sorted and owned, `Get` does not panic and answers with the owner of one
-- of the points.
pub get-Owned :
    (m : Map) (key : Text)
    → Sorted m.keys
    → Owned m
    → length m.keys ≢ 0
    → (m' : Map) × (a : Text) × (k : ℕ) × (Map.get m key ≡ ok (m', a))
      × (0 < count k m.keys)
      × (lookup k m.hash_map ≡ some a)
get-Owned m key s owned some_points =
    let a = routed m (m.config.hash_func key) m.keys in
    let (k, there, is) = routed_lem m (m.config.hash_func key) m.keys some_points owned in
    (
      counted m a,
      a,
      k,
      get-successor m key s ∙ rw (==_ne (length m.keys) 0 some_points) refl,
      there,
      is,
    )
