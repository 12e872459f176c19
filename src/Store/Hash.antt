-- ===== src/Store/Hash.antt =====
-- `hashBKRD` and `maskOfNextPowOf2` of pkg/store/lru2.go. An int32 is its bit pattern, below 2 ^ 32.
use Prim.Native.Nat.{bit_and, bit_or}
use cache_learning_notes.Base.{
  ℕ, ◌+◌, ◌-◌, ◌*◌, ◌/◌, ◌%◌, ◌^◌, [], ◌∷◌, Text, ◌&&◌, ltb, ◌==◌, if◌then◌else◌,
}

abbrev pub u32 : ℕ → ℕ
u32 n = n % 2 ^ 32

-- The loop of `hashBKRD`, with the hash so far.
unfoldable pub hash_from : ℕ → Text → ℕ
hash_from hash [] = hash
hash_from hash (b ∷ s) = hash_from (u32 (hash * 131 + b)) s

unfoldable pub hash_bkrd : Text → ℕ
unfolding hash_from
hash_bkrd s = hash_from 0 s

-- `cap |= cap >> k`, on a uint16.
abbrev pub smear : ℕ → ℕ → ℕ
smear k cap = bit_or cap (cap / 2 ^ k)

unfoldable pub mask_of_next_pow_of_2 : ℕ → ℕ
mask_of_next_pow_of_2 cap =
    if ltb 0 cap && (bit_and cap (cap - 1) == 0)
    then cap - 1
    else smear 8 (smear 4 (smear 2 (smear 1 cap)))

-- `hashBKRD(key) & s.mask`
unfoldable pub bucket_index : ℕ → Text → ℕ
unfolding hash_bkrd
bucket_index mask key = bit_and (hash_bkrd key) mask
