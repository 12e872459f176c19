-- ===== src/Layer/Links.antt =====
-- The array-backed doubly linked list `dlnk` of pkg/store/lru2.go, and `adjust` on it.
use cache_learning_notes.Base.{ℕ, List, Exec, ok, ◌>>=◌, at, write, ◌==◌, if◌then◌else◌}

-- The variables `p` and `n`, which the source uses as the two indices of a `[2]uint16`.
pub data Side : Type 0 where
  prev next : Side

-- A `[2]uint16`.
pub record Link : Type 0 where
  pub p : ℕ
  pub n : ℕ

abbrev pub side : Side → Link → ℕ
side prev l = l.p
side next l = l.n

abbrev pub with_side : Side → ℕ → Link → Link
with_side prev v l = record l { p = v }
with_side next v l = record l { n = v }

-- `dlnk[i][s]`
unfoldable pub link : List Link → ℕ → Side → Exec ℕ
link d i s = do l ← at d i; ok (side s l)

-- `dlnk[i][s] = v`
unfoldable pub set_link : List Link → ℕ → Side → ℕ → Exec (List Link)
set_link d i s v = do l ← at d i; write d i (with_side s v l)

-- The two assignments that take a node out.
unfoldable pub unlink : List Link → ℕ → Side → Side → Exec (List Link)
unlink d idx f t = do
  right ← link d idx t
  left ← link d idx f
  d₁ ← set_link d right f left
  left' ← link d₁ idx f
  right' ← link d₁ idx t
  set_link d₁ left' t right'

-- The four assignments that put it at the end from which `t` leads away.
unfoldable pub relink : List Link → ℕ → Side → Side → Exec (List Link)
relink d idx f t = do
  d₁ ← set_link d idx f 0
  h ← link d₁ 0 t
  d₂ ← set_link d₁ idx t h
  h' ← link d₂ 0 t
  d₃ ← set_link d₂ h' f idx
  set_link d₃ 0 t idx

unfoldable pub adjust_links : List Link → ℕ → Side → Side → Exec (List Link)
adjust_links d idx f t = do
  e ← link d idx f
  if e == 0 then ok d else (unlink d idx f t >>= λ d'. relink d' idx f t)
