-- ===== src/Layer/Ring.antt =====
-- Doubly linked lists over two functions, the links ahead and the links back: what unlinking and
-- relinking a node does to the order, for `adjust` and `put` of pkg/store/lru2.go.
use mathlib.Core.List.{reverse-append}
use cache_learning_notes.Base.{
  subst, sym, hit-zero, ℕ, ◌+◌, ◌≤◌, ◌<◌, ◌≡◌, ◌≢◌, List, [], ◌∷◌, ◌++◌, reverse, arith, ◌==◌,
  if◌then◌else◌, hit, count, count-append, hit_self, hit_ne,
}

abbrev pub update : (ℕ → ℕ) → ℕ → ℕ → ℕ → ℕ
update g i v j = if i == j then v else g j

-- From `a`, the links `t` lead through `xs` to `b`, and the links `f` lead back.
abbrev pub Path2 : (ℕ → ℕ) → (ℕ → ℕ) → ℕ → List ℕ → ℕ → Type 0
Path2 t f a [] b = (t a ≡ b) × (f b ≡ a)
Path2 t f a (x ∷ xs) b = (t a ≡ x) × (f x ≡ a) × Path2 t f x xs b

abbrev pub first : List ℕ → ℕ → ℕ
first [] b = b
first (x ∷ xs) b = x

abbrev pub final : ℕ → List ℕ → ℕ
final a [] = a
final a (x ∷ xs) = final x xs

module _ (t f : ℕ → ℕ) where
  pub Path2-first : (a : ℕ) (xs : List ℕ) (b : ℕ) → Path2 t f a xs b → t a ≡ first xs b
  Path2-first a [] b h = h.0
  Path2-first a (x ∷ xs) b h = h.0

  pub Path2-final : (a : ℕ) (xs : List ℕ) (b : ℕ) → Path2 t f a xs b → f b ≡ final a xs
  Path2-final a [] b h = h.1
  Path2-final a (x ∷ xs) b h = Path2-final x xs b h.2

  pub Path2-append :
      (a : ℕ) (xs : List ℕ) (x : ℕ) (ys : List ℕ) (b : ℕ)
      → Path2 t f a xs x
      → Path2 t f x ys b
      → Path2 t f a (xs ++ x ∷ ys) b
  Path2-append a [] x ys b h k = (h.0, h.1, k)
  Path2-append a (y ∷ xs) x ys b h k = (h.0, h.1, Path2-append y xs x ys b h.2 k)

  pub Path2-before :
      (a : ℕ) (xs : List ℕ) (x : ℕ) (ys : List ℕ) (b : ℕ)
      → Path2 t f a (xs ++ x ∷ ys) b
      → Path2 t f a xs x
  Path2-before a [] x ys b h = (h.0, h.1)
  Path2-before a (y ∷ xs) x ys b h = (h.0, h.1, Path2-before y xs x ys b h.2)

  pub Path2-after :
      (a : ℕ) (xs : List ℕ) (x : ℕ) (ys : List ℕ) (b : ℕ)
      → Path2 t f a (xs ++ x ∷ ys) b
      → Path2 t f x ys b
  Path2-after a [] x ys b h = h.2
  Path2-after a (y ∷ xs) x ys b h = Path2-after y xs x ys b h.2

  -- A write to a link ahead of a node outside the path, or to a link back of one.
  pub Path2-frame_ahead :
      (i v a : ℕ) (xs : List ℕ) (b : ℕ)
      → Path2 t f a xs b
      → hit i a + count i xs ≡ 0
      → Path2 (update t i v) f a xs b
  unfolding count
  Path2-frame_ahead i v a [] b h c = ground arith
  Path2-frame_ahead i v a (x ∷ xs) b h c =
      (ground arith, h.1, Path2-frame_ahead i v x xs b h.2 (omega arith))

  pub Path2-frame_back :
      (i v a : ℕ) (xs : List ℕ) (b : ℕ)
      → Path2 t f a xs b
      → count i xs + hit i b ≡ 0
      → Path2 t (update f i v) a xs b
  unfolding count
  Path2-frame_back i v a [] b h c = ground arith
  Path2-frame_back i v a (x ∷ xs) b h c =
      (h.0, ground arith, Path2-frame_back i v x xs b h.2 (omega arith))

-- The other direction.
pub Path2-reverse :
    (t f : ℕ → ℕ) (a : ℕ) (xs : List ℕ) (b : ℕ) → Path2 t f a xs b → Path2 f t b (reverse xs) a
Path2-reverse t f a [] b h = (h.1, h.0)
Path2-reverse t f a (x ∷ xs) b h =
    subst (λ zs. Path2 f t b zs a) (sym (reverse-append (x ∷ []) xs))
      (Path2-append f t b (reverse xs) x [] a (Path2-reverse t f x xs b h.2) (h.1, h.0))

pub count-first : (xs : List ℕ) (b : ℕ) → 0 < count (first xs b) xs + hit (first xs b) b
unfolding count
count-first [] b = ground arith
count-first (x ∷ xs) b = ground arith

pub count-final : (a : ℕ) (xs : List ℕ) → 0 < hit (final a xs) a + count (final a xs) xs
unfolding count
count-final a [] = ground arith
count-final a (x ∷ xs) = omega (arith, count-final x xs)

-- Taking out the node `idx`: its neighbours become neighbours.
pub Path2-unlink :
    (t f : ℕ → ℕ) (a : ℕ) (xs : List ℕ) (idx : ℕ) (ys : List ℕ) (b : ℕ)
    → Path2 t f a (xs ++ idx ∷ ys) b
    → ((i : ℕ) → hit i a + count i (xs ++ idx ∷ ys) ≤ 1)
    → ((i : ℕ) → count i (xs ++ idx ∷ ys) + hit i b ≤ 1)
    → Path2 (update t (f idx) (t idx)) (update f (t idx) (f idx)) a (xs ++ ys) b
unfolding count
Path2-unlink t f a [] idx [] b h once once' = ground arith
Path2-unlink t f a [] idx (y ∷ ys) b h once once' = (
  ground arith,
  ground arith,
  Path2-frame_back (update t (f idx) (t idx)) f (t idx) (f idx) y ys b
      (Path2-frame_ahead t f (f idx) (t idx) y ys b h.2.2
        (rw h.1 (omega (arith, once a, hit_self a))))
      (rw h.2.0 (omega (arith, once' y, hit_self y))),
)
Path2-unlink t f a (x ∷ xs) idx ys b h once once' =
    let rest = h.2 in
    let left : f idx ≡ final x xs =
      Path2-final t f x xs idx (Path2-before t f x xs idx ys b rest) in
    let right : t idx ≡ first ys b =
      Path2-first t f idx ys b (Path2-after t f x xs idx ys b rest) in
    (
      ground (
        arith,
        left,
        once (final x xs),
        count-final x xs,
        count-append (final x xs) xs (idx ∷ ys),
      ),
      ground (
        arith,
        right,
        once' x,
        once' (first ys b),
        count-first ys b,
        count-append (first ys b) xs (idx ∷ ys),
      ),
      Path2-unlink t f x xs idx ys b rest (λ i. omega (arith, once i))
          (λ i. omega (arith, once' i)),
    )

-- Putting the node `idx` first, in the order of the four assignments.
pub Path2-relink :
    (t f : ℕ → ℕ) (a idx : ℕ) (zs : List ℕ) (b : ℕ)
    → Path2 t f a zs b
    → ((i : ℕ) → hit i a + count i zs ≤ 1)
    → ((i : ℕ) → count i zs + hit i b ≤ 1)
    → idx ≢ b
    → idx ≢ a
    → count idx zs ≡ 0
    → Path2 (update (update t idx (t a)) a idx) (update (update f idx a) (t a) idx) a (idx ∷ zs) b
unfolding count
Path2-relink t f a idx [] b h once once' nb na fresh = ground arith
Path2-relink t f a idx (z ∷ zs) b h once once' nb na fresh =
    let t' = update t idx (t a) in
    let ahead : Path2 (update t' a idx) f z zs b =
      Path2-frame_ahead t' f a idx z zs b (Path2-frame_ahead t f idx (t a) z zs b h.2 fresh)
        (omega (arith, once a, hit_self a)) in
    let back : Path2 (update t' a idx) (update f idx a) z zs b =
      Path2-frame_back (update t' a idx) f idx a z zs b ahead
        (omega (arith, fresh, hit_ne idx b nb)) in
    let ne : idx ≢ z = hit-zero idx z (omega (arith, fresh)) in
    (
      ground arith,
      ground arith,
      (
        ground arith,
        ground arith,
        Path2-frame_back (update t' a idx) (update f idx a) (t a) idx z zs b back
            (rw h.0 (omega (arith, once' z, hit_self z))),
      ),
    )
