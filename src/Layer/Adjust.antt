-- ===== src/Layer/Adjust.antt =====
-- `adjust` of pkg/store/lru2.go: the two groups of assignments are the unlinking and the relinking
-- of Layer/Ring.antt, and no index is out of range.
use cache_learning_notes.Base.{
  ℕ, ◌+◌, ◌≤◌, ◌<◌, ◌≡◌, refl, ◌≢◌, List, [], ◌∷◌, ◌++◌, arith, length, ok, hit, count,
  count-append, hit_self, ==_ne,
}
use cache_learning_notes.Layer.Links.{Side, Link, unlink, relink, adjust_links}
use cache_learning_notes.Layer.Memory.{
  opposite, links_of, Holds, link_ahead, link_back, set_link_ahead, set_link_back,
}
use cache_learning_notes.Layer.Ring.{
  update, Path2, first, final, Path2-first, Path2-final, Path2-before, Path2-after, Path2-unlink,
  Path2-relink, count-final,
}

-- Going in the direction `s` from the sentinel 0 one meets `ids`, and then the sentinel again.
pub record Ring (d : List Link) (s : Side) (ids : List ℕ) : Type 0 where
  pub path : Path2 (links_of s d) (links_of (opposite s) d) 0 ids 0

-- Distinct node numbers, above 0 and below `size`.
pub record IsOrder (ids : List ℕ) (size : ℕ) : Type 0 where
  pub once : (i : ℕ) → count i ids ≤ 1
  pub no_zero : count 0 ids ≡ 0
  pub below : (i : ℕ) → 0 < count i ids → i < size
  pub room : 0 < size

module _ (d : List Link) (s : Side) (size : ℕ) (t f : ℕ → ℕ) (m : Holds d s size t f) where
  unlink_lem :
      (idx : ℕ)
      → idx < size
      → t idx < size
      → f idx < size
      → (d' : List Link) × (unlink d idx (opposite s) s ≡ ok d')
        × Holds d' s size (update t (f idx) (t idx)) (update f (t idx) (f idx))
  unfolding unlink
  unlink_lem idx h ht hf =
      let (d₁, run₁, m₁) = set_link_back d s size t f m (t idx) (f idx) ht in
      let (d₂, run₂, m₂) =
        set_link_ahead d₁ s size t (update f (t idx) (f idx)) m₁ (f idx) (t idx) hf in
      let left : update f (t idx) (f idx) idx ≡ f idx = ground arith in
      (
        d₂,
        rw
            (
              link_ahead d s size t f m idx h,
              link_back d s size t f m idx h,
              run₁,
              link_back d₁ s size t (update f (t idx) (f idx)) m₁ idx h,
              left,
              link_ahead d₁ s size t (update f (t idx) (f idx)) m₁ idx h,
            )
            run₂,
        m₂,
      )

  relink_lem :
      (idx : ℕ)
      → idx < size
      → t 0 < size
      → (d' : List Link) × (relink d idx (opposite s) s ≡ ok d')
        × Holds d' s size (update (update t idx (t 0)) 0 idx) (update (update f idx 0) (t 0) idx)
  unfolding relink
  relink_lem idx h ht =
      let (d₁, run₁, m₁) = set_link_back d s size t f m idx 0 h in
      let (d₂, run₂, m₂) = set_link_ahead d₁ s size t (update f idx 0) m₁ idx (t 0) h in
      let (d₃, run₃, m₃) =
        set_link_back d₂ s size (update t idx (t 0)) (update f idx 0) m₂ (t 0) idx ht in
      let (d₄, run₄, m₄) =
        set_link_ahead d₃ s size (update t idx (t 0)) (update (update f idx 0) (t 0) idx) m₃ 0 idx
          (omega arith) in
      let head : update t idx (t 0) 0 ≡ t 0 = ground arith in
      (
        d₄,
        rw
            (
              run₁,
              link_ahead d₁ s size t (update f idx 0) m₁ 0 (omega arith),
              run₂,
              link_ahead d₂ s size (update t idx (t 0)) (update f idx 0) m₂ 0 (omega arith),
              head,
              run₃,
            )
            run₄,
        m₄,
      )

not_zero : (x : ℕ) (xs zs : List ℕ) → count 0 (x ∷ xs ++ zs) ≡ 0 → final x xs ≢ 0
unfolding count
not_zero x [] zs h = ground arith
not_zero x (y ∷ xs) zs h = not_zero y xs zs (omega arith)

module _ {size : ℕ} where
  -- With the sentinel, at either end, the numbers are still distinct.
  pub once_with_zero : (ids : List ℕ) → IsOrder ids size → (i : ℕ) → hit i 0 + count i ids ≤ 1
  once_with_zero ids o i = ground (arith, o.once i, o.no_zero)

  pub once_with_zero' : (ids : List ℕ) → IsOrder ids size → (i : ℕ) → count i ids + hit i 0 ≤ 1
  once_with_zero' ids o i = ground (arith, o.once i, o.no_zero)

  pub IsOrder-remove :
      (xs : List ℕ) (idx : ℕ) (ys : List ℕ)
      → IsOrder (xs ++ idx ∷ ys) size
      → IsOrder (xs ++ ys) size
  unfolding count
  IsOrder-remove xs idx ys o = record {
    once = λ i. omega (arith, o.once i, count-append i xs ys, count-append i xs (idx ∷ ys));
    no_zero = omega (arith, o.no_zero, count-append 0 xs ys, count-append 0 xs (idx ∷ ys));
    below = λ i h. o.below i (omega (arith, count-append i xs ys, count-append i xs (idx ∷ ys)));
    room = o.room;
  }

  first-lt_part :
      (xs : List ℕ) (idx : ℕ) (ys : List ℕ) → IsOrder (xs ++ idx ∷ ys) size → first ys 0 < size
  unfolding count
  first-lt_part xs idx [] o = o.room
  first-lt_part xs idx (y ∷ ys) o =
      o.below y (omega (arith, count-append y xs (idx ∷ y ∷ ys), hit_self y))

abbrev pub held :
    (d : List Link) (s : Side) (size : ℕ)
    → length d ≡ size
    → Holds d s size (links_of s d) (links_of (opposite s) d)
held d s size w = record { width = w; ahead = refl; back = refl }

pub Holds-Ring :
    (d : List Link) (s : Side) (size : ℕ) (t f : ℕ → ℕ) (ids : List ℕ)
    → Holds d s size t f
    → Path2 t f 0 ids 0
    → Ring d s ids
Holds-Ring d s size t f ids m p = record { path = rw (m.ahead, m.back) p }

-- The neighbours of a node in the middle.
module _ (t f : ℕ → ℕ) (xs : List ℕ) (idx : ℕ) (ys : List ℕ)
    (h : Path2 t f 0 (xs ++ idx ∷ ys) 0) where
  right_lem : t idx ≡ first ys 0
  right_lem = Path2-first t f idx ys 0 (Path2-after t f 0 xs idx ys 0 h)

  left_lem : f idx ≡ final 0 xs
  left_lem = Path2-final t f 0 xs idx (Path2-before t f 0 xs idx ys 0 h)

final-lt :
    (xs : List ℕ) (idx : ℕ) (ys : List ℕ) {size : ℕ}
    → IsOrder (xs ++ idx ∷ ys) size
    → final 0 xs < size
unfolding count
final-lt [] idx ys o = o.room
final-lt (x ∷ xs) idx ys o =
    o.below (final x xs) (omega (arith, count-final x xs, count-append (final x xs) xs (idx ∷ ys)))

idx-lt :
    (xs : List ℕ) (idx : ℕ) (ys : List ℕ) {size : ℕ} → IsOrder (xs ++ idx ∷ ys) size → idx < size
unfolding count
idx-lt xs idx ys o = o.below idx (omega (arith, count-append idx xs (idx ∷ ys), hit_self idx))

pub unlink-Ring :
    (d : List Link) (s : Side) (size : ℕ) (xs : List ℕ) (idx : ℕ) (ys : List ℕ)
    → length d ≡ size
    → IsOrder (xs ++ idx ∷ ys) size
    → Ring d s (xs ++ idx ∷ ys)
    → (d' : List Link) × (unlink d idx (opposite s) s ≡ ok d')
      × (length d' ≡ size)
      × Ring d' s (xs ++ ys)
unlink-Ring d s size xs idx ys w o r =
    let t = links_of s d in
    let f = links_of (opposite s) d in
    let right : t idx < size = rw (right_lem t f xs idx ys r.path) (first-lt_part xs idx ys o) in
    let left : f idx < size = rw (left_lem t f xs idx ys r.path) (final-lt xs idx ys o) in
    let (d', run, m) =
      unlink_lem d s size t f (held d s size w) idx (idx-lt xs idx ys o) right left in
    (
      d',
      run,
      m.width,
      Holds-Ring d' s size _ _ (xs ++ ys) m (
          Path2-unlink t f 0 xs idx ys 0 r.path (once_with_zero (xs ++ idx ∷ ys) o)
            (once_with_zero' (xs ++ idx ∷ ys) o)),
    )

pub relink-Ring :
    (d : List Link) (s : Side) (size : ℕ) (idx : ℕ) (zs : List ℕ)
    → length d ≡ size
    → IsOrder (idx ∷ zs) size
    → Ring d s zs
    → (d' : List Link) × (relink d idx (opposite s) s ≡ ok d')
      × (length d' ≡ size)
      × Ring d' s (idx ∷ zs)
unfolding count
relink-Ring d s size idx zs w o r =
    let t = links_of s d in
    let f = links_of (opposite s) d in
    let o' : IsOrder zs size = IsOrder-remove [] idx zs o in
    let head : t 0 < size = rw (Path2-first t f 0 zs 0 r.path) (first-lt_part [] idx zs o) in
    let nz : idx ≢ 0 = ground (arith, o.no_zero) in
    let (d', run, m) = relink_lem d s size t f (held d s size w) idx (idx-lt [] idx zs o) head in
    (
      d',
      run,
      m.width,
      Holds-Ring d' s size _ _ (idx ∷ zs) m (
          Path2-relink t f 0 idx zs 0 r.path (once_with_zero zs o') (once_with_zero' zs o') nz nz
            (omega (arith, o.once idx, hit_self idx))),
    )

pub IsOrder-to_front :
    (xs : List ℕ) (idx : ℕ) (ys : List ℕ) {size : ℕ}
    → IsOrder (xs ++ idx ∷ ys) size
    → IsOrder (idx ∷ xs ++ ys) size
unfolding count
IsOrder-to_front xs idx ys o = record {
  once = λ i. omega (arith, o.once i, count-append i xs ys, count-append i xs (idx ∷ ys));
  no_zero = omega (arith, o.no_zero, count-append 0 xs ys, count-append 0 xs (idx ∷ ys));
  below = λ i h. o.below i (omega (arith, count-append i xs ys, count-append i xs (idx ∷ ys)));
  room = o.room;
}

-- In a ring of links over distinct node numbers within the array, `adjust` does not panic and moves
-- the node `idx` to the end from which `s` leads away: the others keep their order.
pub adjust_links-Ring :
    (d : List Link) (s : Side) (size : ℕ) (xs : List ℕ) (idx : ℕ) (ys : List ℕ)
    → length d ≡ size
    → IsOrder (xs ++ idx ∷ ys) size
    → Ring d s (xs ++ idx ∷ ys)
    → (d' : List Link) × (adjust_links d idx (opposite s) s ≡ ok d')
      × (length d' ≡ size)
      × Ring d' s (idx ∷ xs ++ ys)
unfolding adjust_links count
adjust_links-Ring d s size [] idx ys w o r =
    let read = link_back d s size _ _ (held d s size w) idx (idx-lt [] idx ys o) in
    (d, rw (read, r.path.1), w, r)
adjust_links-Ring d s size (x ∷ xs) idx ys w o r =
    let read = link_back d s size _ _ (held d s size w) idx (idx-lt (x ∷ xs) idx ys o) in
    let left = left_lem (links_of s d) (links_of (opposite s) d) (x ∷ xs) idx ys r.path in
    let nonzero = not_zero x xs (idx ∷ ys) o.no_zero in
    let (d₁, run₁, w₁, r₁) = unlink-Ring d s size (x ∷ xs) idx ys w o r in
    let (d₂, run₂, w₂, r₂) =
      relink-Ring d₁ s size idx (x ∷ xs ++ ys) w₁ (IsOrder-to_front (x ∷ xs) idx ys o) r₁ in
    (d₂, rw (read, left, ==_ne _ _ nonzero, run₁) run₂, w₂, r₂)
