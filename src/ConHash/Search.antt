-- ===== src/ConHash/Search.antt =====
-- What internal/consistenthash/con_hash.go uses of Go's package sort, and `slice_remove`.
use cache_learning_notes.Base.{
  ℕ, zero, suc, ◌+◌, ◌/◌, List, [], ◌∷◌, Bool, true, false, Exec, ok, no_fuel, ◌>>=◌, at, length,
  ltb, leb, ◌==◌, if◌then◌else◌,
}

-- The loop of `sort.Search`, between `i` and `j`.
unfoldable pub search_from : ℕ → ℕ → ℕ → (ℕ → Exec Bool) → Exec ℕ
search_from zero i j test = if ltb i j then no_fuel else ok i
search_from (suc fuel) i j test = elim (ltb i j) [
  | false ↦ ok i
  | true ↦
      let h = (i + j) / 2 in
      test h >>= λ b. search_from fuel (if b then i else h + 1) (if b then h else j) test
]

-- `sort.Search`: it halves what is left of `n`, so that `n` rounds are enough.
unfoldable pub search : ℕ → (ℕ → Exec Bool) → Exec ℕ
unfolding search_from
search n test = search_from n 0 n test

-- `xs[i] >= value`
abbrev pub at_least : List ℕ → ℕ → ℕ → Exec Bool
at_least xs value i = at xs i >>= λ x. ok (leb value x)

-- `sort.SearchInts`
unfoldable pub search_ints : List ℕ → ℕ → Exec ℕ
unfolding search
search_ints xs value = search (length xs) (at_least xs value)

unfoldable pub insert_sorted : ℕ → List ℕ → List ℕ
insert_sorted x [] = x ∷ []
insert_sorted x (y ∷ ys) = if leb x y then x ∷ y ∷ ys else y ∷ insert_sorted x ys

-- `sort.Ints`
unfoldable pub sort_ints : List ℕ → List ℕ
unfolding insert_sorted
sort_ints [] = []
sort_ints (x ∷ xs) = insert_sorted x (sort_ints xs)

-- `append(xs[:i], xs[i+1:]...)`
unfoldable pub remove_at : ℕ → List ℕ → List ℕ
remove_at i [] = []
remove_at zero (x ∷ xs) = xs
remove_at (suc i) (x ∷ xs) = x ∷ remove_at i xs

-- What `slice_remove` does at the index that it found.
unfoldable pub remove_found : List ℕ → ℕ → ℕ → Exec (List ℕ)
unfolding remove_at
remove_found slice value index = elim (ltb index (length slice)) [
  | false ↦ ok slice
  | true ↦ at slice index >>= λ x. ok (if x == value then remove_at index slice else slice)
]

unfoldable pub slice_remove : List ℕ → ℕ → Exec (List ℕ)
unfolding search_ints remove_found
slice_remove slice value = search_ints slice value >>= remove_found slice value
