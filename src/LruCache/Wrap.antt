-- ===== src/LruCache/Wrap.antt =====
-- Two ways in which pkg/store/lru.go counts the bytes of an entry that is written again.
use cache_learning_notes.Base.{
  ℕ, ◌+◌, ◌-◌, ◌%◌, ◌^◌, ◌≡◌, ◌<◌, arith, ap, ◌∙◌, sym, leb, ltb, inl, inr, Bool-cases,
}
use cache_learning_notes.Base.Int.{
  ℤ, pos, sub_ℕ, pos_part, neg_part, bits64, signed64, wrap64, ◌+ℤ◌, ◌-ℤ◌,
}

-- The low bits of p - n.
diff64 : ℕ → ℕ → ℕ
diff64 p n = (p % 2 ^ 64 + 2 ^ 64 - n % 2 ^ 64) % 2 ^ 64

bits64-sub : (p n : ℕ) → bits64 (sub_ℕ p n) ≡ diff64 p n
unfolding diff64
bits64-sub p n = elim (Bool-cases (leb n p)) [ inl h ↦ ground arith | inr h ↦ ground arith ]

bits64-signed : (w : ℕ) → w < 2 ^ 64 → bits64 (signed64 w) ≡ w
bits64-signed w h = elim (Bool-cases (ltb w (2 ^ 63))) [
  | inl e ↦ ground arith
  | inr e ↦ ground arith
]

bits64-wrap : (x : ℤ) → bits64 (wrap64 x) ≡ bits64 x
unfolding wrap64
bits64-wrap x = bits64-signed (bits64 x) (omega arith)

bits64-plus : (x : ℤ) (a : ℕ) → bits64 (x +ℤ pos a) ≡ (bits64 x + a) % 2 ^ 64
unfolding ◌+ℤ◌ diff64
bits64-plus x a = bits64-sub (pos_part x + a) (neg_part x + 0) ∙ omega arith

bits64-minus : (x : ℤ) (b : ℕ) → bits64 (x -ℤ pos b) ≡ (bits64 x + 2 ^ 64 - b % 2 ^ 64) % 2 ^ 64
unfolding ◌-ℤ◌ diff64
bits64-minus x b = bits64-sub (pos_part x + 0) (neg_part x + b) ∙ omega arith

bits64-change :
    (x : ℤ) (a b : ℕ)
    → bits64 (x +ℤ (pos a -ℤ pos b)) ≡ (bits64 x + a + 2 ^ 64 - b % 2 ^ 64) % 2 ^ 64
unfolding ◌+ℤ◌ ◌-ℤ◌ diff64
bits64-change x a b =
    let p = pos_part (sub_ℕ (a + 0) (0 + b)) in
    let n = neg_part (sub_ℕ (a + 0) (0 + b)) in
    let law : p + b ≡ a + n = ground arith in
    bits64-sub (pos_part x + p) (neg_part x + n) ∙ omega arith

-- The size of the key cancels, and the order of the additions does not matter.
pub recount :
    (u : ℤ) (l a b : ℕ)
    → wrap64 (wrap64 (u -ℤ pos (l + b)) +ℤ pos (l + a)) ≡ wrap64 (u +ℤ (pos a -ℤ pos b))
unfolding wrap64
recount u l a b = ap signed64 (
    bits64-plus (wrap64 (u -ℤ pos (l + b))) (l + a)
    ∙ ap (λ (n : ℕ). (n + (l + a)) % 2 ^ 64)
        (bits64-wrap (u -ℤ pos (l + b)) ∙ bits64-minus u (l + b))
    ∙ omega arith
    ∙ sym (bits64-change u a b))
