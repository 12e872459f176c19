-- ===== src/Layer/Reorder.antt =====
-- Moves in a valid layer of pkg/store/lru2.go: where a key's node stands, and what `adjust` to the
-- head or to the tail does to the order.
use cache_learning_notes.Base.{
  ℕ, ◌≤◌, ◌<◌, ◌≡◌, refl, ◌≢◌, sym, ap, ◌∙◌, subst, List, [], ◌∷◌, ◌++◌, reverse, none, some, Text,
  text_eq, arith, some_eq, length, count, count-append, count-reverse, hit_self, split_at, ok,
}
use mathlib.Core.List.{reverse-append, reverse-reverse, append_assoc}
use cache_learning_notes.Base.Dict.{lookup}
use cache_learning_notes.Layer.Adjust.{Ring, IsOrder, adjust_links-Ring}
use cache_learning_notes.Layer.Cache.{Node, Cache}
use cache_learning_notes.Layer.Links.{prev, next, Link, adjust_links}
use cache_learning_notes.Layer.Memory.{links_of}
use cache_learning_notes.Layer.Model.{node, IsValid}
use cache_learning_notes.Layer.Ring.{Path2-reverse}

IsOrder-le : (ids : List ℕ) {a b : ℕ} → IsOrder ids a → a ≤ b → IsOrder ids b
IsOrder-le ids o h = record {
  once = o.once;
  no_zero = o.no_zero;
  below = λ i c. omega (arith, o.below i c);
  room = omega (arith, o.room);
}

IsOrder-reverse : (ids : List ℕ) {a : ℕ} → IsOrder ids a → IsOrder (reverse ids) a
IsOrder-reverse ids o = record {
  once = λ i. omega (arith, o.once i, count-reverse i ids);
  no_zero = omega (arith, o.no_zero, count-reverse 0 ids);
  below = λ i c. o.below i (omega (arith, count-reverse i ids));
  room = o.room;
}

Ring-reverse_next : (d : List Link) (ids : List ℕ) → Ring d next ids → Ring d prev (reverse ids)
Ring-reverse_next d ids r = record {
  path = Path2-reverse (links_of next d) (links_of prev d) 0 ids 0 r.path;
}

Ring-reverse_prev : (d : List Link) (ids : List ℕ) → Ring d prev ids → Ring d next (reverse ids)
Ring-reverse_prev d ids r = record {
  path = Path2-reverse (links_of prev d) (links_of next d) 0 ids 0 r.path;
}

reverse_around :
    (xs : List ℕ) (i : ℕ) (ys : List ℕ) → reverse (xs ++ i ∷ ys) ≡ reverse ys ++ i ∷ reverse xs
reverse_around xs i ys = reverse-append xs (i ∷ ys) ∙ rw (reverse-append (i ∷ []) ys, append_assoc)

reverse_ends :
    (xs : List ℕ) (i : ℕ) (ys : List ℕ)
    → reverse (i ∷ reverse ys ++ reverse xs) ≡ (xs ++ ys) ++ i ∷ []
reverse_ends xs i ys = rw (
  reverse-append (i ∷ []) (reverse ys ++ reverse xs),
  reverse-append (reverse ys) (reverse xs),
  reverse-reverse,
  reverse-reverse,
)

module _ {V : Type 0} (c : Cache V) (xs : List ℕ) (i : ℕ) (ys : List ℕ)
    (valid : IsValid c (xs ++ i ∷ ys)) where
  pub adjust_head :
      (d' : List Link) × (adjust_links c.dlnk i prev next ≡ ok d')
      × (length d' ≡ length c.dlnk)
      × Ring d' next (i ∷ xs ++ ys)
  adjust_head =
      adjust_links-Ring c.dlnk next (length c.dlnk) xs i ys refl
        (IsOrder-le (xs ++ i ∷ ys) valid.order (omega (arith, valid.width, valid.fits))) valid.ring

  pub adjust_tail :
      (d' : List Link) × (adjust_links c.dlnk i next prev ≡ ok d')
      × (length d' ≡ length c.dlnk)
      × Ring d' next ((xs ++ ys) ++ i ∷ [])
  adjust_tail =
      let around = reverse_around xs i ys in
      let o : IsOrder (reverse ys ++ i ∷ reverse xs) (length c.dlnk) =
        subst (λ z. IsOrder z (length c.dlnk)) around
          (IsOrder-reverse (xs ++ i ∷ ys)
            (IsOrder-le (xs ++ i ∷ ys) valid.order (omega (arith, valid.width, valid.fits)))) in
      let (d', run, w, r) =
        adjust_links-Ring c.dlnk prev (length c.dlnk) (reverse ys) i (reverse xs) refl o
          (subst (Ring c.dlnk prev) around (Ring-reverse_next c.dlnk (xs ++ i ∷ ys) valid.ring)) in
      (
        d',
        run,
        w,
        subst (Ring d' next) (reverse_ends xs i ys)
            (Ring-reverse_prev d' (i ∷ reverse ys ++ reverse xs) r),
      )

module _ {V : Type 0} (c : Cache V) (ids : List ℕ) (valid : IsValid c ids) where
  -- The same nodes in another order, with values and expirations changed.
  pub IsValid-reorder :
      (ids' : List ℕ) (m' : List (Node V)) (d' : List Link)
      → length m' ≡ length c.m
      → ((j : ℕ) → 0 < count j ids → (node m' j).k ≡ (node c.m j).k)
      → length d' ≡ length c.dlnk
      → Ring d' next ids'
      → ((j : ℕ) → count j ids' ≡ count j ids)
      → length ids' ≡ length ids
      → IsValid (record c { m = m'; dlnk = d' }) ids'
  IsValid-reorder ids' m' d' wm same wd r counts sized = record {
    width = omega (arith, valid.width);
    nonempty = omega (arith, valid.nonempty);
    small = omega (arith, valid.small);
    fits = omega (arith, valid.fits);
    ring = r;
    order = record {
      once = λ j. omega (arith, counts j, valid.order.once j);
      no_zero = omega (arith, counts 0, valid.order.no_zero);
      below = λ j h. valid.order.below j (omega (arith, counts j));
      room = valid.order.room;
    };
    sized = omega (arith, valid.sized);
    keyed = λ key i h.
        let there = (valid.keyed key i h).0 in
        (omega (arith, counts i), same i there ∙ (valid.keyed key i h).1);
    indexed = λ i h.
        let there : 0 < count i ids = omega (arith, counts i) in
        rw (same i there) (valid.indexed i there);
  }

  -- A key's node, and the nodes before it, which have other keys.
  pub located :
      (key : Text) (i : ℕ)
      → lookup key c.hmap ≡ some i
      → (xs : List ℕ) × (ys : List ℕ) × (ids ≡ xs ++ i ∷ ys)
        × ((j : ℕ) → 0 < count j xs → (node c.m j).k ≢ key)
        × (0 < i)
        × (i ≤ c.last)
  unfolding count
  located key i h =
      let (there, named) = valid.keyed key i h in
      let (xs, ys, split) = split_at i ids there in
      let total = λ (j : ℕ). ap (count j) split ∙ count-append j xs (i ∷ ys) in
      (
        xs,
        ys,
        split,
        λ j c same.
            let found = valid.indexed j (omega (arith, total j)) in
            let eq : j ≡ i = some_eq (sym found ∙ rw (← same) at h) in
            let twice : 0 < count i xs = subst (λ z. 0 < count z xs) eq c in
            omega (arith, valid.order.once i, total i, hit_self i),
        ground (arith, valid.order.no_zero, there),
        omega (arith, valid.order.below i there),
      )

  pub absent :
      (key : Text) → lookup key c.hmap ≡ none → (j : ℕ) → 0 < count j ids → (node c.m j).k ≢ key
  absent key h j there same =
      let found = valid.indexed j there in cc (ap (λ z. lookup z c.hmap) same)
