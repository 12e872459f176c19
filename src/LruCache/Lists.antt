-- ===== src/LruCache/Lists.antt =====
-- The list of elements of pkg/store/lru.go: what taking one out and moving one to the front does
-- to the elements and to the entries that they point at.
use cache_learning_notes.Base.{
  ℕ, ◌+◌, ◌-◌, ◌<◌, ◌≡◌, refl, List, [], ◌∷◌, ◌++◌, map, none, some, Text, text_eq, arith, count,
  hit, hit_self, length,
}
use cache_learning_notes.LruCache.Cache.{LruEntry, erase, move_to_front, back}
use cache_learning_notes.LruCache.Spec.{find, remove}

pub count-erase : (i j : ℕ) (xs : List ℕ) → count j (erase i xs) ≡ count j xs - hit j i
unfolding count erase
count-erase i j [] = omega arith
count-erase i j (x ∷ xs) = ground (arith, count-erase i j xs)

pub erase_absent : (i : ℕ) (xs : List ℕ) → count i xs ≡ 0 → erase i xs ≡ xs
unfolding count erase
erase_absent i [] h = refl
erase_absent i (x ∷ xs) h = ground (arith, erase_absent i xs (omega arith))

pub erase_last : (i : ℕ) (xs : List ℕ) → count i xs ≡ 0 → erase i (xs ++ i ∷ []) ≡ xs
unfolding count erase
erase_last i [] h = ground arith
erase_last i (x ∷ xs) h = ground (arith, erase_last i xs (omega arith))

pub length-erase : (i : ℕ) (xs : List ℕ) → 0 < count i xs → length (erase i xs) + 1 ≡ length xs
unfolding count erase
length-erase i [] h = absurd (omega arith)
length-erase i (x ∷ xs) h = ground (arith, length-erase i xs)

pub move_to_front_lem : (i : ℕ) (xs : List ℕ) → 0 < count i xs → move_to_front i xs ≡ i ∷ erase i xs
unfolding move_to_front
move_to_front_lem i xs h = ground arith

pub count-move_to_front : (i j : ℕ) (xs : List ℕ) → count j (move_to_front i xs) ≡ count j xs
unfolding move_to_front count
count-move_to_front i j xs = ground (arith, count-erase i j xs)

pub back-append : (xs : List ℕ) (i : ℕ) → back (xs ++ i ∷ []) ≡ some i
unfolding back
back-append [] i = refl
back-append (x ∷ xs) i = rw (back-append xs i)

module _ {V : Type 0} (elems : ℕ → LruEntry V) (key : Text) where
  pub find-none :
      (xs : List ℕ)
      → ((j : ℕ) → 0 < count j xs → ¬ ((elems j).key ≡ key))
      → (find key (map elems xs) ≡ none) × (remove key (map elems xs) ≡ map elems xs)
  unfolding find remove count
  find-none [] h = (refl, refl)
  find-none (x ∷ xs) h =
      let rest = find-none xs (λ j c. h j (omega arith)) in
      let other = h x (omega (arith, hit_self x)) in
      ground (arith, rest, other, text_eq.beq_iff (elems x).key key)

  -- The element `i` is the only one whose entry has the key.
  pub find-some :
      (i : ℕ) (xs : List ℕ)
      → (elems i).key ≡ key
      → ((j : ℕ) → 0 < count j xs → (elems j).key ≡ key → j ≡ i)
      → 0 < count i xs
      → (find key (map elems xs) ≡ some (elems i))
        × (remove key (map elems xs) ≡ map elems (erase i xs))
  unfolding find remove count erase
  find-some i [] e h c = absurd (omega arith)
  find-some i (x ∷ xs) e h c =
      let rest = find-some i xs e (λ j d. h j (omega arith)) in
      let own = h x (omega (arith, hit_self x)) in
      ground (arith, rest, own, text_eq.beq_iff (elems x).key key)
