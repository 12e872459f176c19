-- ===== src/Base/Keys.antt =====
-- Equality tests as an interface, and Go strings as lists of bytes.
use Prim.Native.Nat.{ℕ}
use mathlib.Core.Bool.{Bool, true, false, ◌&&◌}
use mathlib.Core.List.{List, [], ◌∷◌}
use mathlib.Core.Logic.{◌≢◌, ◌↔◌}
use mathlib.Core.Path.{◌≡◌, refl}
use native.Mathlib.Omega.{arith}
use cache_learning_notes.Base.Tests.{◌==◌, ==_iff}

pub record Eq {ℓ} (A : Type ℓ) : Type ℓ where
  pub beq : A → A → Bool
  pub beq_iff : (a b : A) → (beq a b ≡ true) ↔ (a ≡ b)

infix 50 ◌=?◌
abbrev pub ◌=?◌ {ℓ} : {A : Type ℓ} ⦃e : Eq A⦄ → A → A → Bool
◌=?◌ ⦃e⦄ = e.beq

instance abbrev pub nat_eq : Eq ℕ
nat_eq = record { beq = ◌==◌; beq_iff = ==_iff }

-- A Go string: its bytes.
abbrev pub Text : Type 0
Text = List ℕ

unfoldable pub text_beq : Text → Text → Bool
text_beq [] [] = true
text_beq [] (y ∷ ys) = false
text_beq (x ∷ xs) [] = false
text_beq (x ∷ xs) (y ∷ ys) = x == y && text_beq xs ys

pub text_beq_iff : (a b : Text) → (text_beq a b ≡ true) ↔ (a ≡ b)
unfolding text_beq
text_beq_iff [] [] = (λ _. refl, λ _. refl)
text_beq_iff [] (y ∷ ys) = (λ h. cc, λ h. cc)
text_beq_iff (x ∷ xs) [] = (λ h. cc, λ h. cc)
text_beq_iff (x ∷ xs) (y ∷ ys) =
    (λ h. ground (arith, (text_beq_iff xs ys).0), λ h. ground (arith, (text_beq_iff xs ys).1))

instance abbrev pub text_eq : Eq Text
text_eq = record { beq = text_beq; beq_iff = text_beq_iff }

module _ {ℓ} {A : Type ℓ} ⦃e : Eq A⦄ where
  pub =?_refl : (a : A) → (a =? a) ≡ true
  =?_refl a = (e.beq_iff a a).1 refl

  pub =?_eq : (a b : A) → (a =? b) ≡ true → a ≡ b
  =?_eq a b = (e.beq_iff a b).0

  pub =?_ne : (a b : A) → (a =? b) ≡ false → a ≢ b
  =?_ne a b h p = ground (arith, (e.beq_iff a b).1 p)
