-- ===== src/Store/Mask.antt =====
-- `maskOfNextPowOf2` of pkg/store/lru2.go and the index that `hashBKRD` gives with its mask.
use Prim.Native.Nat.{bit_and-bitwise, digits, min, two}
use cache_learning_notes.Base.{
  ℕ, zero, suc, ◌+◌, ◌-◌, ◌*◌, ◌/◌, ◌%◌, ◌^◌, ◌≤◌, ◌<◌, ◌≡◌, refl, sym, ap, ◌∙◌, subst, inl, inr,
  Bool, true, false, ◌&&◌, Text, leb, ◌==◌, if◌then◌else◌, Bool-cases, arith,
}
use cache_learning_notes.Layer.Cache.{u16}
use cache_learning_notes.Store.Hash.{mask_of_next_pow_of_2, hash_bkrd, bucket_index}

-- The least power of two that is at least `n`, among `p` and its first `fuel` doublings.
pow_from : ℕ → ℕ → ℕ → ℕ
pow_from zero p n = p
pow_from (suc fuel) p n = let more = pow_from fuel (2 * p) n in if leb n p then p else more

holds_below : ℕ → Bool
holds_below zero = true
holds_below (suc n) = (mask_of_next_pow_of_2 (suc n) + 1 == pow_from 16 1 (suc n)) && holds_below n

table : holds_below 32768 ≡ true
unfolding holds_below pow_from mask_of_next_pow_of_2
table = refl

below_lem :
    (m n : ℕ)
    → holds_below m ≡ true
    → n < m
    → mask_of_next_pow_of_2 (suc n) + 1 ≡ pow_from 16 1 (suc n)
unfolding holds_below
below_lem zero n h p = absurd (omega arith)
below_lem (suc m) n h p = elim (Bool-cases (n == m)) [
  | inl e ↦
      let same : n ≡ m = ground arith in
      ap (λ z. mask_of_next_pow_of_2 (suc z) + 1) same
      ∙ ground arith
      ∙ ap (λ z. pow_from 16 1 (suc z)) (sym same)
  | inr e ↦ below_lem m n (ground arith) (ground arith)
]

-- `n` is at most `p`, and `p` is the least power of two with that.
pub record IsNextPow (n p : ℕ) : Type 0 where
  pub exponent : ℕ
  pub power : p ≡ 2 ^ exponent
  pub enough : n ≤ p
  pub least : (j : ℕ) → n ≤ 2 ^ j → p ≤ 2 ^ j

min_le : (x y : ℕ) → min x y ≤ y
min_le zero y = omega arith
min_le (suc x) zero = omega arith
min_le (suc x) (suc y) = omega (arith, min_le x y)

double_le : (k j : ℕ) → 2 ^ k < 2 ^ j → 2 * 2 ^ k ≤ 2 ^ j
double_le zero j h = omega arith
double_le (suc k) zero h = omega arith
double_le (suc k) (suc j) h = let rest = double_le k j (omega arith) in omega (arith, rest)

the_same : (k : ℕ) → k + 0 ≡ k
the_same k = omega arith

shift : (k m : ℕ) → k + suc m ≡ suc k + m
shift k m = omega arith

small_lem : (p n k j : ℕ) → p ≡ 2 ^ k → leb n p ≡ false → n ≤ 2 ^ j → 2 ^ k < 2 ^ j
small_lem p n k j is small h = ground arith

pow_from_lem :
    (fuel k p n : ℕ)
    → p ≡ 2 ^ k
    → ((j : ℕ) → n ≤ 2 ^ j → p ≤ 2 ^ j)
    → n ≤ 2 ^ (k + fuel)
    → IsNextPow n (pow_from fuel p n)
unfolding pow_from
pow_from_lem zero k p n is low room = record {
  exponent = k;
  power = is;
  enough = subst (λ z. n ≤ z) (ap (λ z. 2 ^ z) (the_same k) ∙ sym is) room;
  least = low;
}
pow_from_lem (suc fuel) k p n is low room = elim (Bool-cases (leb n p)) [
  | inl fits ↦ rw fits (record { exponent = k; power = is; enough = ground arith; least = low })
  | inr small ↦ rw small (
      pow_from_lem fuel (suc k) (2 * p) n (omega (arith, is))
        (λ j h. (omega (arith, is, double_le k j (small_lem p n k j is small h))))
        (subst (λ z. n ≤ 2 ^ z) (shift k fuel) room))
]

digits_le : (n a b : ℕ) → digits (λ _. 0) min n a b ≤ b
digits_le zero a b = omega arith
digits_le (suc n) zero b = omega arith
digits_le (suc n) (suc a) b =
    let high = digits_le n (suc a / two) (b / two) in
    let low : min (suc a % two) (b % two) ≤ b % two = min_le (suc a % two) (b % two) in
    omega (arith, high, low)

-- The low bits that the mask keeps are a number up to the mask.
bucket_index_le : (mask : ℕ) (key : Text) → bucket_index mask key ≤ mask
unfolding bucket_index
bucket_index_le mask key =
    subst (λ z. z ≤ mask) (sym (bit_and-bitwise (hash_bkrd key) mask))
      (digits_le (hash_bkrd key) (hash_bkrd key) mask)

-- For a number of buckets from 1 to 32768, the mask is one less than the least power of two that
-- is at least that number.
pub mask-IsNextPow : (n : ℕ) → 0 < n → n ≤ 32768 → IsNextPow n (mask_of_next_pow_of_2 n + 1)
mask-IsNextPow zero p h = absurd (omega arith)
mask-IsNextPow (suc n) p h =
    subst (IsNextPow (suc n)) (sym (below_lem 32768 n table (omega arith)))
      (pow_from_lem 16 0 1 (suc n) refl (λ j fits. omega arith) (omega arith))

wraps_below : ℕ → Bool
wraps_below zero = true
wraps_below (suc n) = (u16 (mask_of_next_pow_of_2 (32769 + n) + 1) == 0) && wraps_below n

wraps_table : wraps_below 32767 ≡ true
unfolding wraps_below mask_of_next_pow_of_2
wraps_table = refl

wraps_lem :
    (m n : ℕ) → wraps_below m ≡ true → n < m → u16 (mask_of_next_pow_of_2 (32769 + n) + 1) ≡ 0
unfolding wraps_below
wraps_lem zero n h p = absurd (omega arith)
wraps_lem (suc m) n h p = elim (Bool-cases (n == m)) [
  | inl e ↦
      let same : n ≡ m = ground arith in
      ap (λ z. u16 (mask_of_next_pow_of_2 (32769 + z) + 1)) same ∙ ground arith
  | inr e ↦ wraps_lem m n (ground arith) (ground arith)
]

apart : (n : ℕ) → 32768 < n → n ≡ 32769 + (n - 32769)
apart n p = omega arith

-- From 32769 to 65535 the number of buckets, a uint16, wraps to 0.
pub mask_wraps : (n : ℕ) → 32768 < n → n < 65536 → u16 (mask_of_next_pow_of_2 n + 1) ≡ 0
mask_wraps n p h =
    ap (λ z. u16 (mask_of_next_pow_of_2 z + 1)) (apart n p)
    ∙ wraps_lem 32767 (n - 32769) wraps_table (omega arith)

-- For a number of buckets from 1 to 32768, the index of every key is below the number of buckets
-- that the store makes.
pub bucket_index_lt :
    (n : ℕ) (key : Text)
    → 0 < n
    → n ≤ 32768
    → bucket_index (mask_of_next_pow_of_2 n) key < u16 (mask_of_next_pow_of_2 n + 1)
bucket_index_lt n key p h =
    let next = mask-IsNextPow n p h in
    let bound = next.least 15 (omega (arith, h)) in
    omega (arith, bound, bucket_index_le (mask_of_next_pow_of_2 n) key)
