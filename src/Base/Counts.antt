-- ===== src/Base/Counts.antt =====
-- How often a number stands in a list: the form in which membership, distinctness and ranges of
-- node numbers are stated, since `omega` adds counts up.
use Prim.Native.Nat.{ℕ, ◌+◌, ◌<◌}
use mathlib.Core.List.{List, [], ◌∷◌, ◌++◌, reverse}
use mathlib.Core.List.{reverse-append}
use mathlib.Core.Logic.{◌≢◌, inl, inr}
use mathlib.Core.Path.{◌≡◌, refl, ap}
use native.Mathlib.Omega.{arith}
use cache_learning_notes.Base.Tests.{◌==◌, if◌then◌else◌, Bool-cases}

abbrev pub hit : ℕ → ℕ → ℕ
hit i x = if i == x then 1 else 0

unfoldable pub count : ℕ → List ℕ → ℕ
count i [] = 0
count i (x ∷ xs) = hit i x + count i xs

pub hit_self : (i : ℕ) → hit i i ≡ 1
hit_self i = ground arith

pub hit-zero : (i x : ℕ) → hit i x ≡ 0 → i ≢ x
hit-zero i x h = ground arith

pub hit_ne : (i x : ℕ) → i ≢ x → hit i x ≡ 0
hit_ne i x h = ground arith

pub count-append : (i : ℕ) (xs ys : List ℕ) → count i (xs ++ ys) ≡ count i xs + count i ys
unfolding count
count-append i [] ys = omega arith
count-append i (x ∷ xs) ys = omega (arith, count-append i xs ys)

pub count-reverse : (i : ℕ) (xs : List ℕ) → count i (reverse xs) ≡ count i xs
unfolding count
count-reverse i [] = refl
count-reverse i (x ∷ xs) = omega (
  arith,
  ap (count i) (reverse-append (x ∷ []) xs),
  count-append i (reverse xs) (x ∷ []),
  count-reverse i xs,
)

-- A number that occurs splits the list at its first occurrence.
pub split_at :
    (i : ℕ) (xs : List ℕ)
    → 0 < count i xs
    → (before : List ℕ) × (after : List ℕ) × (xs ≡ before ++ i ∷ after)
unfolding count
split_at i [] h = absurd (omega arith)
split_at i (x ∷ xs) h = elim (Bool-cases (i == x)) [
  | inl e ↦ ([], xs, ground arith)
  | inr e ↦
      let (before, after, split) = split_at i xs (ground arith) in (x ∷ before, after, rw (← split))
]
