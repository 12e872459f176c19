-- ===== src/Layer/Memory.antt =====
-- The array of links of pkg/store/lru2.go as a pair of functions: what each read and write of one link
-- does to them.
use cache_learning_notes.Base.{
  ℕ, ◌<◌, ◌≡◌, refl, inl, inr, fun_ext, subst, ◌∙◌, List, arith, length, get_or, set, length-set,
  get_or-set_self, get_or-set_ne, ok, at-get_or, write-set, ◌==◌, Bool-cases,
}
use cache_learning_notes.Layer.Links.{Side, prev, next, Link, side, with_side, link, set_link}
use cache_learning_notes.Layer.Ring.{update}

abbrev pub opposite : Side → Side
opposite prev = next
opposite next = prev

abbrev pub no_link : Link
no_link = record { p = 0; n = 0 }

-- The links of one side, as a function.
unfoldable pub links_of : Side → List Link → ℕ → ℕ
links_of s d i = side s (get_or d i no_link)

-- What an array of `size` links holds, as two functions.
pub record Holds (d : List Link) (s : Side) (size : ℕ) (t f : ℕ → ℕ) : Type 0 where
  pub width : length d ≡ size
  pub ahead : links_of s d ≡ t
  pub back : links_of (opposite s) d ≡ f

poke : List Link → ℕ → Side → ℕ → List Link
poke d i s v = set d i (with_side s v (get_or d i no_link))

set_link-poke :
    (d : List Link) (i : ℕ) (s : Side) (v : ℕ) → i < length d → set_link d i s v ≡ ok (poke d i s v)
unfolding set_link poke
set_link-poke d i s v h = rw (at-get_or d i no_link h, write-set d i _ h)

length-poke : (d : List Link) (i : ℕ) (s : Side) (v : ℕ) → length (poke d i s v) ≡ length d
unfolding poke
length-poke d i s v = length-set d i _

side-with_side : (s : Side) (v : ℕ) (l : Link) → side s (with_side s v l) ≡ v
side-with_side prev v l = refl
side-with_side next v l = refl

side-with_side-opposite :
    (s : Side) (v : ℕ) (l : Link) → side (opposite s) (with_side s v l) ≡ side (opposite s) l
side-with_side-opposite prev v l = refl
side-with_side-opposite next v l = refl

links_of-poke :
    (d : List Link) (i : ℕ) (s : Side) (v : ℕ)
    → i < length d
    → links_of s (poke d i s v) ≡ update (links_of s d) i v
unfolding links_of poke
links_of-poke d i s v h = fun_ext λ j. elim (Bool-cases (i == j)) [
  | inl e ↦
      let same : i ≡ j = ground arith in
      rw (e, ← same, get_or-set_self d i _ no_link h) (side-with_side s v _)
  | inr e ↦ rw (e, get_or-set_ne d i j _ no_link (ground arith))
]

links_of-poke-opposite :
    (d : List Link) (i : ℕ) (s : Side) (v : ℕ)
    → i < length d
    → links_of (opposite s) (poke d i s v) ≡ links_of (opposite s) d
unfolding links_of poke
links_of-poke-opposite d i s v h = fun_ext λ j. elim (Bool-cases (i == j)) [
  | inl e ↦
      let same : i ≡ j = ground arith in
      rw (← same, get_or-set_self d i _ no_link h) (side-with_side-opposite s v _)
  | inr e ↦ rw (get_or-set_ne d i j _ no_link (ground arith))
]

link_lem : (d : List Link) (i : ℕ) (s : Side) → i < length d → link d i s ≡ ok (links_of s d i)
unfolding link links_of
link_lem d i s h = rw (at-get_or d i no_link h)

opposite_twice : (s : Side) → opposite (opposite s) ≡ s
opposite_twice prev = refl
opposite_twice next = refl

module _ (d : List Link) (s : Side) (size : ℕ) (t f : ℕ → ℕ) (m : Holds d s size t f) where
  pub Holds-opposite : Holds d (opposite s) size f t
  Holds-opposite = record { width = m.width; ahead = m.back; back = rw (opposite_twice s) m.ahead }

  pub link_ahead : (i : ℕ) → i < size → link d i s ≡ ok (t i)
  link_ahead i h = rw (← m.ahead) (link_lem d i s (rw m.width h))

  pub set_link_ahead :
      (i v : ℕ)
      → i < size
      → (d' : List Link) × (set_link d i s v ≡ ok d') × Holds d' s size (update t i v) f
  set_link_ahead i v h =
      let h' : i < length d = rw m.width h in
      (
        poke d i s v,
        set_link-poke d i s v h',
        record {
          width = length-poke d i s v ∙ m.width;
          ahead = rw (← m.ahead) (links_of-poke d i s v h');
          back = links_of-poke-opposite d i s v h' ∙ m.back;
        },
      )

module _ (d : List Link) (s : Side) (size : ℕ) (t f : ℕ → ℕ) (m : Holds d s size t f) where
  pub link_back : (i : ℕ) → i < size → link d i (opposite s) ≡ ok (f i)
  link_back = link_ahead d (opposite s) size f t (Holds-opposite d s size t f m)

  pub set_link_back :
      (i v : ℕ)
      → i < size
      → (d' : List Link) × (set_link d i (opposite s) v ≡ ok d') × Holds d' s size t (update f i v)
  set_link_back i v h =
      let (d', run, m') =
        set_link_ahead d (opposite s) size f t (Holds-opposite d s size t f m) i v h in
      let m'' : Holds d' (opposite (opposite s)) size t (update f i v) =
        Holds-opposite d' (opposite s) size (update f i v) t m' in
      (d', run, subst (λ z. Holds d' z size t (update f i v)) (opposite_twice s) m'')
