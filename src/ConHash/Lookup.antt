-- ===== src/ConHash/Lookup.antt =====
-- `Get` of internal/consistenthash/con_hash.go: the binary search against a search from the start.
use cache_learning_notes.Base.{
  ℕ, zero, suc, ◌+◌, ◌/◌, ◌≤◌, ◌<◌, ◌≡◌, refl, sym, ap, ◌∙◌, inl, inr, List, [], ◌∷◌, Bool, false,
  Text, text_eq, nat_eq, ◌=?◌, arith, length, ltb, leb, ◌==◌, if◌then◌else◌, Bool-cases, ok, Exec,
  ◌>>=◌, at, count, hit_self,
}
use cache_learning_notes.Base.Dict.{lookup}
use cache_learning_notes.Base.Int.{pos, ◌+ℤ◌, wrap64}
use cache_learning_notes.ConHash.Map
use cache_learning_notes.ConHash.Map.{Map, or_empty}
use cache_learning_notes.ConHash.Search.{search_from, search, at_least}

-- Each number is at most those after it.
abbrev pub Sorted : List ℕ → Type 0
Sorted [] = Unit {0}
Sorted (x ∷ xs) = ((y : ℕ) → 0 < count y xs → x ≤ y) × Sorted xs

-- How many numbers of a sorted list are below a value.
unfoldable pub lower_bound : ℕ → List ℕ → ℕ
lower_bound value [] = 0
lower_bound value (x ∷ xs) = let n = lower_bound value xs in if leb value x then 0 else suc n

-- The first number that is at least a value, or else the first of all.
unfoldable pub successor : ℕ → List ℕ → ℕ → ℕ
successor value [] start = start
successor value (x ∷ xs) start =
    let rest = successor value xs start in if leb value x then x else rest

pub lower_bound_le : (value : ℕ) (xs : List ℕ) → lower_bound value xs ≤ length xs
unfolding lower_bound
lower_bound_le value [] = omega arith
lower_bound_le value (x ∷ xs) = ground (arith, lower_bound_le value xs)

lower_bound_zero :
    (value x : ℕ) (xs : List ℕ) → Sorted (x ∷ xs) → value ≤ x → lower_bound value xs ≡ 0
unfolding lower_bound count
lower_bound_zero value x [] s h = refl
lower_bound_zero value x (y ∷ ys) s h =
    let bound = s.0 y (omega (arith, hit_self y)) in ground arith

-- The test at an index, in a sorted list.
at_least_lem :
    (value : ℕ) (xs : List ℕ) (i : ℕ)
    → Sorted xs
    → i < length xs
    → at_least xs value i ≡ ok (leb (lower_bound value xs) i)
unfolding lower_bound at
at_least_lem value [] i s h = elim h [ ]
at_least_lem value (x ∷ xs) zero s h = ground arith
at_least_lem value (x ∷ xs) (suc i) s h = elim (Bool-cases (leb value x)) [
  | inl e ↦
      at_least_lem value xs i s.1 (omega arith)
      ∙ rw (lower_bound_zero value x xs s (ground arith), e) (ground arith)
  | inr e ↦ at_least_lem value xs i s.1 (omega arith) ∙ rw e (ground arith)
]

half : (i j : ℕ) → i < j → (i ≤ (i + j) / 2) × ((i + j) / 2 < j)
half i j h = (omega arith, omega arith)

search_from_lem :
    (fuel i j goal : ℕ) (test : ℕ → Exec Bool)
    → ((h : ℕ) → h < j → test h ≡ ok (leb goal h))
    → i ≤ goal
    → goal ≤ j
    → j ≤ i + fuel
    → search_from fuel i j test ≡ ok goal
unfolding search_from
search_from_lem zero i j goal test right low high enough = ground arith
search_from_lem (suc fuel) i j goal test right low high enough = elim (Bool-cases (ltb i j)) [
  | inr done ↦ rw (done, search_from) (ap ok (ground arith))
  | inl more ↦
      let (a, b) = half i j (ground arith) in
      rw (more, search_from, right ((i + j) / 2) b)
        (elim (Bool-cases (leb goal ((i + j) / 2))) [
          | inl left ↦ rw left (
              search_from_lem fuel i ((i + j) / 2) goal test (λ h k. right h (omega arith)) low
                (ground arith) (omega arith))
          | inr right' ↦ rw right' (
              search_from_lem fuel ((i + j) / 2 + 1) j goal test right (ground arith) high
                (omega arith))
        ])
]

-- In a sorted list the binary search ends within its fuel, at the least index of a number that is
-- at least the value, or at the length if there is none.
pub search-lower_bound :
    (xs : List ℕ) (value : ℕ)
    → Sorted xs
    → search (length xs) (at_least xs value) ≡ ok (lower_bound value xs)
unfolding search
search-lower_bound xs value s =
    search_from_lem (length xs) 0 (length xs) (lower_bound value xs) (at_least xs value)
      (λ h k. at_least_lem value xs h s k) (omega arith) (lower_bound_le value xs) (omega arith)

at-lower_bound :
    (value start : ℕ) (xs : List ℕ)
    → lower_bound value xs < length xs
    → at xs (lower_bound value xs) ≡ ok (successor value xs start)
unfolding lower_bound successor at
at-lower_bound value start [] h = elim h [ ]
at-lower_bound value start (x ∷ xs) h = elim (Bool-cases (leb value x)) [
  | inl e ↦ rw (e, at)
  | inr e ↦ rw (e, at) (at-lower_bound value start xs (ground arith))
]

successor_none :
    (value start : ℕ) (xs : List ℕ)
    → lower_bound value xs ≡ length xs
    → successor value xs start ≡ start
unfolding lower_bound successor
successor_none value start [] h = refl
successor_none value start (x ∷ xs) h = elim (Bool-cases (leb value x)) [
  | inl e ↦ absurd (ground arith)
  | inr e ↦ rw e (successor_none value start xs (ground arith))
]

abbrev pub owner_of : Map → ℕ → Text
owner_of m k = or_empty (lookup k m.hash_map)

-- The address that a hash is routed to, on a ring of these points.
abbrev pub routed : Map → ℕ → List ℕ → Text
routed m hash [] = []
routed m hash (k ∷ ks) = owner_of m (successor hash (k ∷ ks) k)

-- The state after a key was routed to an address.
abbrev pub counted : Map → Text → Map
counted m owner =
    if owner =? m.self_addr then record m { self_load = wrap64 (m.self_load +ℤ pos 1) } else m

get_at_lem :
    (m : Map) (index k : ℕ)
    → at m.keys index ≡ ok k
    → Map.get_at m index ≡ ok (counted m (owner_of m k), owner_of m k)
unfolding Map.get_at
get_at_lem m index k h = rw h

-- The index that `Get` reads at, with the turn to the start of the ring.
wrapped_lem :
    (hash k : ℕ) (keys ks : List ℕ)
    → keys ≡ k ∷ ks
    → at keys (if lower_bound hash keys == length keys then 0 else lower_bound hash keys)
      ≡ ok (successor hash keys k)
unfolding at
wrapped_lem hash k keys ks is = elim (Bool-cases (lower_bound hash keys == length keys)) [
  | inl none_left ↦ rw (none_left, successor_none hash k keys (ground arith)) (ap (λ z. at z 0) is)
  | inr found ↦
      let bound = lower_bound_le hash keys in rw found (at-lower_bound hash k keys (ground arith))
]

get_lem :
    (m : Map) (hash k : ℕ) (ks : List ℕ)
    → m.keys ≡ k ∷ ks
    → Sorted m.keys
    → (search (length m.keys) (at_least m.keys hash) >>= λ index.
        Map.get_at m (if index == length m.keys then 0 else index))
      ≡ ok (counted m (routed m hash m.keys), routed m hash m.keys)
get_lem m hash k ks is s =
    let same : owner_of m (successor hash m.keys k) ≡ routed m hash m.keys =
      ap (λ z. owner_of m (successor hash z k)) is ∙ sym (ap (routed m hash) is) in
    rw (search-lower_bound m.keys hash s) (
      get_at_lem m _ (successor hash m.keys k) (wrapped_lem hash k m.keys ks is)
      ∙ ap (λ o. ok (counted m o, o)) same)

nonempty : (xs : List ℕ) → (length xs == 0) ≡ false → (k : ℕ) × (ks : List ℕ) × (xs ≡ k ∷ ks)
nonempty [] h = absurd (ground arith)
nonempty (k ∷ ks) h = (k, ks, refl)

-- `Get` does not panic on a ring whose points are sorted. An empty ring answers with the empty
-- address, and another with the owner of the first point that is at least the hash of the key, or
-- else of the first point of all. Nothing changes but the load, which is counted if the address
-- is the node's own.
pub get-successor :
    (m : Map) (key : Text)
    → Sorted m.keys
    → Map.get m key ≡ (
        if length m.keys == 0
        then ok (m, [])
        else ok (
          counted m (routed m (m.config.hash_func key) m.keys),
          routed m (m.config.hash_func key) m.keys,
        ))
unfolding Map.get
get-successor m key s = elim (Bool-cases (length m.keys == 0)) [
  | inl empty ↦ rw (empty, Map.get)
  | inr some_points ↦
      let (k, ks, is) = nonempty m.keys some_points in
      rw (some_points, Map.get) (get_lem m (m.config.hash_func key) k ks is s)
]
