-- ===== src/Base/Runs.antt =====
-- Runs of Go code that may panic, and loops on fuel; slices that are read and written by index.
use Prim.Native.Nat.{ℕ, zero, suc, ◌<◌}
use mathlib.Core.List.{List, [], ◌∷◌}
use mathlib.Core.Logic.{◌≢◌}
use mathlib.Core.Path.{◌≡◌, refl, ap}
use native.Mathlib.Omega.{arith}
use cache_learning_notes.Base.Lists.{length, get_or, set}

-- `panic` is a run-time panic (an index out of range, a division by zero); `no_fuel` means that a
-- loop did not end within its fuel.
pub data Exec {ℓ} (A : Type ℓ) : Type ℓ where
  ok : A → Exec A
  panic : Exec A
  no_fuel : Exec A

infixl 5 ◌>>=◌
abbrev pub ◌>>=◌ {ℓ κ} : {A : Type ℓ} {B : Type κ} → Exec A → (A → Exec B) → Exec B
ok a >>= f = f a
panic >>= f = panic
no_fuel >>= f = no_fuel

module _ {ℓ} {A : Type ℓ} where
  -- `xs[i]`
  unfoldable pub at : List A → ℕ → Exec A
  at [] i = panic
  at (x ∷ xs) zero = ok x
  at (x ∷ xs) (suc i) = at xs i

  -- `xs[i] = v`
  unfoldable pub write : List A → ℕ → A → Exec (List A)
  write [] i v = panic
  write (x ∷ xs) zero v = ok (v ∷ xs)
  write (x ∷ xs) (suc i) v = do rest ← write xs i v; ok (x ∷ rest)

  pub at-get_or : (xs : List A) (i : ℕ) (d : A) → i < length xs → at xs i ≡ ok (get_or xs i d)
  unfolding at
  at-get_or [] i d h = elim h [ ]
  at-get_or (x ∷ xs) zero d h = refl
  at-get_or (x ∷ xs) (suc i) d h = at-get_or xs i d (omega arith)

  pub write-set : (xs : List A) (i : ℕ) (v : A) → i < length xs → write xs i v ≡ ok (set xs i v)
  unfolding write
  write-set [] i v h = elim h [ ]
  write-set (x ∷ xs) zero v h = refl
  write-set (x ∷ xs) (suc i) v h = rw (write-set xs i v (omega arith))

  pub at_inside : (xs : List A) (i : ℕ) → i < length xs → (a : A) × (at xs i ≡ ok a)
  unfolding at
  at_inside [] i h = elim h [ ]
  at_inside (x ∷ xs) zero h = (x, refl)
  at_inside (x ∷ xs) (suc i) h = at_inside xs i (omega arith)

  other_than_first : (v x : A) (xs : List A) (j : ℕ) → zero ≢ j → at (v ∷ xs) j ≡ at (x ∷ xs) j
  unfolding at
  other_than_first v x xs zero h = absurd (h refl)
  other_than_first v x xs (suc j) h = refl

  other_than_next :
      (x : A) (xs ys : List A) (i : ℕ)
      → ((j : ℕ) → i ≢ j → at ys j ≡ at xs j)
      → (j : ℕ) → suc i ≢ j
      → at (x ∷ ys) j ≡ at (x ∷ xs) j
  unfolding at
  other_than_next x xs ys i h zero p = refl
  other_than_next x xs ys i h (suc j) p = h j (λ e. p (ap suc e))

  -- What a write in bounds leaves.
  pub record Written (xs : List A) (i : ℕ) (v : A) : Type ℓ where
    pub rest : List A
    pub ran : write xs i v ≡ ok rest
    pub same_length : length rest ≡ length xs
    pub here : at rest i ≡ ok v
    pub elsewhere : (j : ℕ) → i ≢ j → at rest j ≡ at xs j

  pub write_inside : (xs : List A) (i : ℕ) (v : A) → i < length xs → Written xs i v
  unfolding at write
  write_inside [] i v h = elim h [ ]
  write_inside (x ∷ xs) zero v h = record {
    rest = v ∷ xs;
    ran = refl;
    same_length = refl;
    here = refl;
    elsewhere = other_than_first v x xs;
  }
  write_inside (x ∷ xs) (suc i) v h =
      let w = write_inside xs i v (omega arith) in
      record {
        rest = x ∷ w.rest;
        ran = rw w.ran;
        same_length = ap suc w.same_length;
        here = w.here;
        elsewhere = other_than_next x xs w.rest i w.elsewhere;
      }

  ok_or : A → Exec A → A
  ok_or d (ok a) = a
  ok_or d panic = d
  ok_or d no_fuel = d

  pub ok_eq : {a b : A} → ok a ≡ ok b → a ≡ b
  unfolding ok_or
  ok_eq {a} h = ap (ok_or a) h
