-- ===== src/ConHash/Points.antt =====
-- Sorted lists of points under the operations of internal/consistenthash/con_hash.go.
use cache_learning_notes.Base.{
  ℕ, zero, suc, ◌+◌, ◌-◌, ◌≤◌, ◌<◌, ◌≡◌, ◌≢◌, refl, sym, ap, ◌∙◌, inl, inr, List, [], ◌∷◌, true,
  false, arith, length, ltb, leb, ◌==◌, ==_refl, ==_ne, Bool-cases, ok, ok_eq, at_inside, ◌⊎◌, at,
  count, hit, hit_self, hit_ne,
}
use cache_learning_notes.ConHash.Lookup.{Sorted, lower_bound, search-lower_bound}
use cache_learning_notes.ConHash.Search.{
  insert_sorted, sort_ints, search_ints, remove_at, remove_found, slice_remove,
}

pub count-insert_sorted :
    (x y : ℕ) (xs : List ℕ) → count x (insert_sorted y xs) ≡ hit x y + count x xs
unfolding insert_sorted count
count-insert_sorted x y [] = refl
count-insert_sorted x y (z ∷ xs) = elim (Bool-cases (leb y z)) [
  | inl e ↦ rw e refl
  | inr e ↦ rw e (omega (arith, count-insert_sorted x y xs))
]

in_cons : (z x : ℕ) (xs : List ℕ) → 0 < count z (x ∷ xs) → (z ≡ x) ⊎ (0 < count z xs)
unfolding count
in_cons z x xs h = elim (Bool-cases (z == x)) [
  | inl e ↦ inl (ground arith)
  | inr e ↦ inr (ground arith)
]

head_le : (x z : ℕ) (xs : List ℕ) → Sorted (x ∷ xs) → 0 < count z (x ∷ xs) → x ≤ z
head_le x z xs s h = elim (in_cons z x xs h) [ inl e ↦ omega (arith, e) | inr later ↦ s.0 z later ]

insert_sorted-Sorted : (y : ℕ) (xs : List ℕ) → Sorted xs → Sorted (insert_sorted y xs)
unfolding insert_sorted count
insert_sorted-Sorted y [] s = (λ z h. absurd (omega arith), tt)
insert_sorted-Sorted y (x ∷ xs) s = elim (Bool-cases (leb y x)) [
  | inl e ↦ rw e ((λ z h. let low = head_le x z xs s h in ground arith), s)
  | inr e ↦ rw e (
    (λ z h. elim (in_cons z y xs (omega (arith, h, count-insert_sorted z y xs))) [
      | inl same ↦ ground arith
      | inr later ↦ s.0 z later
    ]),
    insert_sorted-Sorted y xs s.1,
  )
]

pub count-sort_ints : (x : ℕ) (xs : List ℕ) → count x (sort_ints xs) ≡ count x xs
unfolding sort_ints count
count-sort_ints x [] = refl
count-sort_ints x (y ∷ xs) =
    omega (arith, count-insert_sorted x y (sort_ints xs), count-sort_ints x xs)

pub sort_ints-Sorted : (xs : List ℕ) → Sorted (sort_ints xs)
unfolding sort_ints
sort_ints-Sorted [] = tt
sort_ints-Sorted (x ∷ xs) = insert_sorted-Sorted x (sort_ints xs) (sort_ints-Sorted xs)

-- A sorted list is determined by how often each number stands in it.
pub equal_counts :
    (xs ys : List ℕ) → Sorted xs → Sorted ys → ((x : ℕ) → count x xs ≡ count x ys) → xs ≡ ys
unfolding count
equal_counts [] [] s t h = refl
equal_counts [] (y ∷ ys) s t h = absurd (omega (arith, h y, hit_self y))
equal_counts (x ∷ xs) [] s t h = absurd (omega (arith, h x, hit_self x))
equal_counts (x ∷ xs) (y ∷ ys) s t h =
    let low = head_le x y xs s (omega (arith, h y, hit_self y)) in
    let high = head_le y x ys t (omega (arith, h x, hit_self x)) in
    let same : x ≡ y = omega (arith, low, high) in
    let rest = equal_counts xs ys s.1 t.1 (λ z. omega (arith, h z, ap (hit z) same)) in
    ap (λ z. z ∷ xs) same ∙ ap (λ zs. y ∷ zs) rest

later_lem :
    (value x : ℕ) (xs : List ℕ)
    → 0 < count value (x ∷ xs)
    → leb value x ≡ false
    → 0 < count value xs
later_lem value x xs h e = elim (in_cons value x xs h) [
  | inl same ↦ absurd (ground arith)
  | inr later ↦ later
]

at-lower_bound_present :
    (value : ℕ) (xs : List ℕ)
    → Sorted xs
    → 0 < count value xs
    → (lower_bound value xs < length xs) × (at xs (lower_bound value xs) ≡ ok value)
unfolding lower_bound at count
at-lower_bound_present value [] s h = absurd (ground arith)
at-lower_bound_present value (x ∷ xs) s h = elim (Bool-cases (leb value x)) [
  | inl e ↦ let low = head_le x value xs s h in rw e (omega arith, ap ok (ground arith))
  | inr e ↦
      let (a, b) = at-lower_bound_present value xs s.1 (later_lem value x xs h e) in
      rw e (omega (arith, a), b)
]

count-at : (xs : List ℕ) (i x : ℕ) → at xs i ≡ ok x → 0 < count x xs
unfolding at count
count-at [] i x h = absurd (ground arith)
count-at (y ∷ xs) zero x h =
    let same : y ≡ x = ok_eq h in omega (arith, hit_self x, ap (hit x) same)
count-at (y ∷ xs) (suc i) x h = omega (arith, count-at xs i x h)

hit_le : (x v : ℕ) → hit x v ≤ 1
hit_le x v = ground arith

hit-at : (xs : List ℕ) (i v x : ℕ) → at xs i ≡ ok v → hit x v ≤ count x xs
hit-at xs i v x h = elim (Bool-cases (x == v)) [
  | inl e ↦
      let same : x ≡ v = ground arith in
      omega (arith, count-at xs i x (h ∙ ap ok (sym same)), hit_le x v)
  | inr e ↦ omega (arith, hit_ne x v (ground arith))
]

count-remove_at :
    (xs : List ℕ) (i v x : ℕ) → at xs i ≡ ok v → count x (remove_at i xs) ≡ count x xs - hit x v
unfolding at count remove_at
count-remove_at [] i v x h = omega arith
count-remove_at (y ∷ xs) zero v x h = let same : y ≡ v = ok_eq h in omega (arith, ap (hit x) same)
count-remove_at (y ∷ xs) (suc i) v x h =
    omega (arith, count-remove_at xs i v x h, hit-at xs i v x h)

remove_at-Sorted : (xs : List ℕ) (i v : ℕ) → at xs i ≡ ok v → Sorted xs → Sorted (remove_at i xs)
unfolding at remove_at
remove_at-Sorted [] i v h s = tt
remove_at-Sorted (y ∷ xs) zero v h s = s.1
remove_at-Sorted (y ∷ xs) (suc i) v h s =
    (λ z k. s.0 z (omega (arith, k, count-remove_at xs i v z h)), remove_at-Sorted xs i v h s.1)

-- What `slice_remove` leaves of a sorted slice.
pub record Removed (xs : List ℕ) (value : ℕ) : Type 0 where
  pub rest : List ℕ
  pub ran : slice_remove xs value ≡ ok rest
  pub still : Sorted rest
  pub counts : (x : ℕ) → count x rest ≡ count x xs - hit x value

ltb_lem : (m n : ℕ) → m < n → ltb m n ≡ true
ltb_lem m n h = ground arith

missing_lem :
    (x value : ℕ) (xs : List ℕ) → count value xs ≡ 0 → count x xs ≡ count x xs - hit x value
missing_lem x value xs h = elim (Bool-cases (x == value)) [
  | inl e ↦ let same : x ≡ value = ground arith in omega (arith, ap (λ z. count z xs) same, h)
  | inr e ↦ omega (arith, hit_ne x value (ground arith))
]

apart_lem : (xs : List ℕ) (i x value : ℕ) → at xs i ≡ ok x → count value xs ≡ 0 → x ≢ value
apart_lem xs i x value there none_there p =
    let known = count-at xs i value (there ∙ ap ok p) in omega (arith, known, none_there)

absent_lem : (xs : List ℕ) (value i : ℕ) → count value xs ≡ 0 → remove_found xs value i ≡ ok xs
unfolding remove_found
absent_lem xs value i none_there = elim (Bool-cases (ltb i (length xs))) [
  | inr past ↦ rw (past, remove_found) refl
  | inl inside ↦
      let (x, there) = at_inside xs i (ground arith) in
      rw (inside, remove_found, there, ==_ne x value (apart_lem xs i x value there none_there)) refl
]

found_lem :
    (xs : List ℕ) (value i : ℕ)
    → i < length xs
    → at xs i ≡ ok value
    → remove_found xs value i ≡ ok (remove_at i xs)
unfolding remove_found
found_lem xs value i inside there =
    rw (ltb_lem i (length xs) inside, remove_found, there, ==_refl value) refl

-- In a sorted slice `slice_remove` does not panic, and takes out one occurrence of the value, if
-- there is one; the slice stays sorted.
pub slice_remove-Removed : (xs : List ℕ) (value : ℕ) → Sorted xs → Removed xs value
unfolding slice_remove search_ints
slice_remove-Removed xs value s = elim (Bool-cases (ltb 0 (count value xs))) [
  | inr none_there ↦ record {
    rest = xs;
    ran = rw (search-lower_bound xs value s) (absent_lem xs value _ (ground arith));
    still = s;
    counts = λ x. missing_lem x value xs (ground arith);
  }
  | inl some_there ↦
      let (inside, there) = at-lower_bound_present value xs s (ground arith) in
      let n = lower_bound value xs in
      record {
        rest = remove_at n xs;
        ran = rw (search-lower_bound xs value s) (found_lem xs value n inside there);
        still = remove_at-Sorted xs n value there s;
        counts = λ x. count-remove_at xs n value x there;
      }
]
