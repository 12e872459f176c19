-- ===== src/Layer/Push.antt =====
-- The assignments by which `put` of pkg/store/lru2.go links a new node in at the head.
use cache_learning_notes.Base.{
  ℕ, suc, ◌+◌, ◌<◌, ◌≡◌, refl, ◌≢◌, inl, inr, sym, ap, ◌∙◌, fun_ext, subst, List, [], ◌∷◌, ◌++◌,
  arith, length, ok, write, write-set, set, length-set, get_or-set_self, get_or-set_ne, ◌==◌, count,
  Bool-cases, hit_self,
}
use cache_learning_notes.Layer.Adjust.{
  Ring, IsOrder, held, Holds-Ring, once_with_zero, once_with_zero', IsOrder-remove,
}
use cache_learning_notes.Layer.Links.{prev, next, Link, link, set_link}
use cache_learning_notes.Layer.Memory.{
  no_link, links_of, Holds, link_ahead, link_back, set_link_ahead, set_link_back,
}
use cache_learning_notes.Layer.Ring.{
  update, Path2, first, final, Path2-first, Path2-final, Path2-relink,
}

write_link :
    (d : List Link) (size : ℕ) (t f : ℕ → ℕ)
    → Holds d next size t f
    → (i a b : ℕ) → i < size
    → (d' : List Link) × (write d i (record { p = a; n = b }) ≡ ok d')
      × Holds d' next size (update t i b) (update f i a)
unfolding links_of
write_link d size t f m i a b h =
    let l : Link = record { p = a; n = b } in
    let room : i < length d = omega (arith, m.width) in
    (
      set d i l,
      write-set d i l room,
      record {
        width = length-set d i l ∙ m.width;
        ahead = fun_ext λ j. elim (Bool-cases (i == j)) [
          | inl e ↦
              let same : i ≡ j = ground arith in rw (e, ← same, get_or-set_self d i l no_link room)
          | inr e ↦ rw (e, get_or-set_ne d i j l no_link (ground arith)) (ap (λ g. g j) m.ahead)
        ];
        back = fun_ext λ j. elim (Bool-cases (i == j)) [
          | inl e ↦
              let same : i ≡ j = ground arith in rw (e, ← same, get_or-set_self d i l no_link room)
          | inr e ↦ rw (e, get_or-set_ne d i j l no_link (ground arith)) (ap (λ g. g j) m.back)
        ];
      },
    )

update_comm :
    (g : ℕ → ℕ) (i j v w : ℕ) → i ≢ j → update (update g i v) j w ≡ update (update g j w) i v
update_comm g i j v w h = fun_ext λ k. ground arith

pub head_link :
    (d : List Link) (ids : List ℕ)
    → 0 < length d
    → Ring d next ids
    → link d 0 next ≡ ok (first ids 0)
head_link d ids h r =
    rw (← Path2-first (links_of next d) (links_of prev d) 0 ids 0 r.path)
      (link_ahead d next (length d) _ _ (held d next (length d) refl) 0 h)

final-append : (a : ℕ) (xs : List ℕ) (i : ℕ) → final a (xs ++ i ∷ []) ≡ i
final-append a [] i = refl
final-append a (x ∷ xs) i = final-append x xs i

pub tail_link :
    (d : List Link) (xs : List ℕ) (i : ℕ)
    → 0 < length d
    → Ring d next (xs ++ i ∷ [])
    → link d 0 prev ≡ ok i
tail_link d xs i h r =
    let e : links_of prev d 0 ≡ i =
      Path2-final (links_of next d) (links_of prev d) 0 (xs ++ i ∷ []) 0 r.path
      ∙ final-append 0 xs i in
    rw (← e) (link_back d next (length d) _ _ (held d next (length d) refl) 0 h)

first-lt : (ids : List ℕ) {size : ℕ} → IsOrder ids size → first ids 0 < size
unfolding count
first-lt [] o = o.room
first-lt (x ∷ xs) o = o.below x (omega (arith, hit_self x))

first-ne : (ids : List ℕ) (i : ℕ) {size : ℕ} → IsOrder (i ∷ ids) size → first ids 0 ≢ i
unfolding count
first-ne [] i o = ground (arith, o.no_zero)
first-ne (x ∷ xs) i o = ground (arith, o.once i)

pub push-fresh : (ids : List ℕ) (last : ℕ) → IsOrder ids (suc last) → count (last + 1) ids ≡ 0
push-fresh ids last o = ground (arith, o.below (last + 1))

pub IsOrder-push :
    (ids : List ℕ) (last : ℕ) {size : ℕ}
    → IsOrder ids (suc last)
    → last + 1 < size
    → IsOrder ((last + 1) ∷ ids) size
unfolding count
IsOrder-push ids last o h = record {
  once = λ j. ground (arith, o.once j, push-fresh ids last o);
  no_zero = ground (arith, o.no_zero);
  below = λ j c. ground (arith, o.below j, c);
  room = omega arith;
}

-- The reads and writes of the links in `put_new`, one by one.
pub push_links :
    (d : List Link) (size : ℕ) (ids : List ℕ) (i : ℕ)
    → length d ≡ size
    → IsOrder (i ∷ ids) size
    → Ring d next ids
    → (d₁ d₂ d₃ : List Link) × (set_link d (first ids 0) prev i ≡ ok d₁)
      × (link d₁ 0 next ≡ ok (first ids 0))
      × (write d₁ i (record { p = 0; n = first ids 0 }) ≡ ok d₂)
      × (set_link d₂ 0 next i ≡ ok d₃)
      × (length d₃ ≡ size)
      × Ring d₃ next (i ∷ ids)
unfolding count
push_links d size ids i w o r =
    let t = links_of next d in
    let f = links_of prev d in
    let h = first ids 0 in
    let head : t 0 ≡ h = Path2-first t f 0 ids 0 r.path in
    let o' : IsOrder ids size = IsOrder-remove [] i ids o in
    let low : i < size = o.below i (omega (arith, hit_self i)) in
    let first_low : h < size = first-lt ids o' in
    let nz : i ≢ 0 = ground (arith, o.no_zero) in
    let apart : h ≢ i = first-ne ids i o in
    let (d₁, run₁, m₁) = set_link_back d next size t f (held d next size w) h i first_low in
    let (d₂, run₂, m₂) = write_link d₁ size t (update f h i) m₁ i 0 h low in
    let (d₃, run₃, m₃) =
      set_link_ahead d₂ next size (update t i h) (update (update f h i) i 0) m₂ 0 i o.room in
    let path =
      Path2-relink t f 0 i ids 0 r.path (once_with_zero ids o') (once_with_zero' ids o') nz nz
        (omega (arith, o.once i, hit_self i)) in
    (
      d₁,
      d₂,
      d₃,
      run₁,
      link_ahead d₁ next size t (update f h i) m₁ 0 o.room ∙ ap ok head,
      run₂,
      run₃,
      m₃.width,
      Holds-Ring d₃ next size _ _ (i ∷ ids) m₃ (
          subst (λ g. Path2 (update (update t i h) 0 i) g 0 (i ∷ ids) 0)
            (update_comm f i h 0 i (λ q. apart (sym q)))
            (subst
              (λ z. Path2 (update (update t i z) 0 i) (update (update f i 0) z i) 0 (i ∷ ids) 0)
              head path)),
    )
