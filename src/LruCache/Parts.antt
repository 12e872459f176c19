-- ===== src/LruCache/Parts.antt =====
-- The parts of `Set` and `SetWithExpiration` of pkg/store/lru.go: the expiration time, the entry at the
-- front of the list, and `evict`.
use cache_learning_notes.Base.{
  ℕ, suc, ◌+◌, ◌<◌, ◌≡◌, refl, List, [], ◌∷◌, map, reverse, none, some, Text, text_eq, arith, count,
  hit_self, ◌∙◌, ap, false, length, ok, inl, inr, Bool-cases, ◌=?◌,
}
use cache_learning_notes.Base.Dict.{lookup, insert, lookup-insert, lookup-delete}
use cache_learning_notes.Base.Int.{ℤ, pos, ◌+ℤ◌, wrap64, ltb_ℤ}
use cache_learning_notes.Layer.Cache.{Calls, positive}
use cache_learning_notes.LruCache.Cache.{
  LruEntry, LruCache, erase, move_to_front, point_at, evict, overwrite, push_front, date,
}
use cache_learning_notes.LruCache.Evict.{evict_loop_lem}
use cache_learning_notes.LruCache.Model.{
  IsLinked, IsDated, entries, oldest_first, Evicted, like-Evicted,
}
use cache_learning_notes.LruCache.Linked.{overwrite-Linked, push-Linked}
use cache_learning_notes.LruCache.Lists.{move_to_front_lem, count-erase}
use cache_learning_notes.LruCache.Spec
use cache_learning_notes.LruCache.Spec.{calls, Trimmed}

-- The dates of all keys but one belong to keys that the cache holds.
abbrev pub IsDatedBut : Text → List (Text × ℕ) → List (Text × ℤ) → Type 0
IsDatedBut key items expires =
    (k : Text) (t : ℤ)
    → lookup k expires ≡ some t
    → (key =? k) ≡ false
    → (i : ℕ) × (lookup k items ≡ some i)

pub known-IsDated :
    (key : Text) (i : ℕ) (items : List (Text × ℕ)) (expires : List (Text × ℤ))
    → lookup key items ≡ some i
    → IsDatedBut key items expires
    → IsDated items expires
known-IsDated key i items expires h d k t e = elim (Bool-cases (key =? k)) [
  | inl p ↦ (i, ground (arith, text_eq.beq_iff key k))
  | inr p ↦ d k t e p
]

pub insert-IsDated :
    (key : Text) (i : ℕ) (items : List (Text × ℕ)) (expires : List (Text × ℤ))
    → IsDatedBut key items expires
    → IsDated (insert key i items) expires
insert-IsDated key i items expires d k t e = elim (Bool-cases (key =? k)) [
  | inl p ↦ (i, ground (arith, lookup-insert key k i items))
  | inr p ↦ let (j, f) = d k t e p in (j, ground (arith, lookup-insert key k i items))
]

module _ {V : Type 0} where
  map-point_at :
      (elems : ℕ → LruEntry V) (i : ℕ) (e : LruEntry V) (xs : List ℕ)
      → count i xs ≡ 0
      → map (point_at i e elems) xs ≡ map elems xs
  unfolding count
  map-point_at elems i e [] h = refl
  map-point_at elems i e (x ∷ xs) h =
      let rest = map-point_at elems i e xs (omega arith) in ground (arith, rest)

  front_entry :
      (elems : ℕ → LruEntry V) (i : ℕ) (e : LruEntry V) (xs : List ℕ)
      → count i xs ≡ 0
      → map (point_at i e elems) (i ∷ xs) ≡ e ∷ map elems xs
  front_entry elems i e xs h = let rest = map-point_at elems i e xs h in ground (arith, rest)

  overwrite-entries :
      (c : LruCache V) (i : ℕ) (e : LruEntry V)
      → IsLinked c
      → 0 < count i c.list
      → reverse (map (point_at i e c.elems) (move_to_front i c.list))
        ≡ reverse (e ∷ map c.elems (erase i c.list))
  overwrite-entries c i e l h =
      let out : count i (erase i c.list) ≡ 0 =
        omega (arith, count-erase i i c.list, l.once i, hit_self i) in
      ap (λ (xs : List ℕ). reverse (map (point_at i e c.elems) xs)) (move_to_front_lem i c.list h)
      ∙ ap (reverse) (front_entry c.elems i e (erase i c.list) out)

  push-entries :
      (c : LruCache V) (e : LruEntry V)
      → IsLinked c
      → reverse (map (point_at c.next e c.elems) (c.next ∷ c.list)) ≡ reverse (e ∷ entries c)
  push-entries c e l =
      ap reverse (front_entry c.elems c.next e c.list (ground (arith, l.below c.next)))

module _ {V : Type 0} (size : V → ℕ) where
  pub date-IsDatedBut :
      (c : LruCache V) (key : Text) (expiration now : ℤ)
      → IsDated c.items c.expires
      → IsDatedBut key c.items (date size c key expiration now).expires
  unfolding date
  date-IsDatedBut c key expiration now d k t e p = elim (Bool-cases (positive expiration)) [
    | inl q ↦ d k t (ground (arith, lookup-insert key k (now +ℤ expiration) c.expires))
    | inr q ↦ d k t (ground (arith, lookup-delete key k c.expires))
  ]

  pub date_only :
      (c : LruCache V) (key : Text) (expiration now : ℤ)
      → date size c key expiration now
        ≡ record c { expires = (date size c key expiration now).expires }
  unfolding date
  date_only c key expiration now = elim (Bool-cases (positive expiration)) [
    | inl h ↦ rw h
    | inr h ↦ rw h
  ]

  pub evict_lem :
      (c : LruCache V)
      → IsLinked c
      → IsDated c.items c.expires
      → (r : LruCache V × Calls V) × (evict size c ≡ ok r)
        × Evicted c (Spec.evict size c.max_bytes c.used_bytes (oldest_first c)) r
  unfolding evict Spec.evict calls
  evict_lem c l d = elim (Bool-cases (ltb_ℤ (pos 0) c.max_bytes)) [
    | inl h ↦ rw h (evict_loop_lem size (length c.list) c refl l d)
    | inr h ↦ (
      (c, []),
      rw h,
      record {
        linked = l;
        dated = d;
        kept = rw h;
        used = rw h;
        called = rw h;
        same_max = refl;
        same_callback = refl;
      },
    )
  ]

  -- What comes before `evict` for a key that has an element, and for one that has none.
  pub overwrite_lem :
      (c : LruCache V) (i : ℕ) (v : V) (used : ℤ)
      → IsLinked c
      → IsDated c.items c.expires
      → 0 < count i c.list
      → (r : LruCache V × Calls V) × (overwrite size c i v used ≡ ok r)
        × Evicted c
            (Spec.evict size c.max_bytes used
              (reverse (record (c.elems i) { value = v } ∷ map c.elems (erase i c.list))))
            r
  unfolding overwrite
  overwrite_lem c i v used l d h =
      let e : LruEntry V = record (c.elems i) { value = v } in
      let c' : LruCache V = record c {
        used_bytes = used;
        elems = point_at i e c.elems;
        list = move_to_front i c.list;
      } in
      let (r, ran, w) = evict_lem c' (overwrite-Linked l i v h) d in
      (
        r,
        ran,
        like-Evicted c c' _ (oldest_first c') (Spec.evict size c.max_bytes used) r refl refl
            (overwrite-entries c i e l h) w,
      )

  pub push_front_lem :
      (c : LruCache V) (key : Text) (v : V)
      → IsLinked c
      → lookup key c.items ≡ none
      → IsDated (insert key c.next c.items) c.expires
      → (r : LruCache V × Calls V) × (push_front size c key v ≡ ok r)
        × Evicted c
            (Spec.evict size c.max_bytes
              (wrap64 (c.used_bytes +ℤ pos (length key + size v)))
              (reverse (record { key = key; value = v } ∷ entries c)))
            r
  unfolding push_front
  push_front_lem c key v l h d =
      let e : LruEntry V = record { key = key; value = v } in
      let used = wrap64 (c.used_bytes +ℤ pos (length key + size v)) in
      let c' : LruCache V = record c {
        list = c.next ∷ c.list;
        elems = point_at c.next e c.elems;
        next = suc c.next;
        items = insert key c.next c.items;
        used_bytes = used;
      } in
      let (r, ran, w) = evict_lem c' (push-Linked l e h) d in
      (
        r,
        ran,
        like-Evicted c c' _ (oldest_first c') (Spec.evict size c.max_bytes used) r refl refl
            (push-entries c e l) w,
      )
