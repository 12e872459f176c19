-- ===== src/LruCache/Reads.antt =====
-- `Delete` and `Get` of pkg/store/lru.go.
use cache_learning_notes.Base.{
  ℕ, ◌≡◌, refl, List, none, some, Text, text_eq, arith, sym, ◌∙◌, ap, true, false, if◌then◌else◌,
  inl, inr, Option-cases, ◌=?◌,
}
use cache_learning_notes.Base.Dict.{lookup, lookup-delete}
use cache_learning_notes.Base.Int.{ℤ}
use cache_learning_notes.LruCache.Cache.{
  LruCache, remove_element, delete_key, get, is_past, move_to_front,
}
use cache_learning_notes.LruCache.Linked.{
  erase-Linked, front-Linked, entries-absent, entries-present,
}
use cache_learning_notes.LruCache.Lists.{move_to_front_lem}
use cache_learning_notes.LruCache.Model.{IsDated, IsLinked, entries, delete-IsDated}
use cache_learning_notes.LruCache.Spec

-- No date without an element.
undated :
    (key : Text) (items : List (Text × ℕ)) (expires : List (Text × ℤ))
    → IsDated items expires
    → lookup key items ≡ none
    → lookup key expires ≡ none
undated key items expires d h = elim (Option-cases (lookup key expires)) [
  | inl e ↦ e
  | inr (t, e) ↦ absurd (ground (arith, (d key t e).1))
]

module _ {V : Type 0} where
  -- The key is gone from the cache, and every other is as it was.
  pub record Deleted (c c' : LruCache V) (key : Text) : Type 0 where
    pub linked : IsLinked c'
    pub dated : IsDated c'.items c'.expires
    pub rest : entries c' ≡ Spec.remove key (entries c)
    pub items : (k : Text) → lookup k c'.items ≡ (if key =? k then none else lookup k c.items)
    pub expires : (k : Text) → lookup k c'.expires ≡ (if key =? k then none else lookup k c.expires)
    pub same_elems : c'.elems ≡ c.elems

module _ {V : Type 0} (size : V → ℕ) where
  delete_absent :
      (c : LruCache V) (key : Text)
      → IsLinked c
      → IsDated c.items c.expires
      → lookup key c.items ≡ none
      → Deleted c c key
  delete_absent c key l d h =
      let no_date = undated key c.items c.expires d h in
      record {
        linked = l;
        dated = d;
        rest = sym (entries-absent l key h).1;
        items = λ k. ground (arith, text_eq.beq_iff key k);
        expires = λ k. ground (arith, text_eq.beq_iff key k);
        same_elems = refl;
      }

  remove_present :
      (c : LruCache V) (key : Text) (i : ℕ)
      → IsLinked c
      → IsDated c.items c.expires
      → lookup key c.items ≡ some i
      → Deleted c (remove_element size c i).0 key
  unfolding remove_element
  remove_present c key i l d h =
      let (inside, k) = l.keyed key i h in
      let (f, m) = entries-present l key i h in
      record {
        linked = erase-Linked l i inside;
        dated = delete-IsDated (c.elems i).key c.items c.expires d;
        rest = sym m;
        items = λ j.
            lookup-delete (c.elems i).key j c.items
            ∙ ap (λ (x : Text). if x =? j then none else lookup j c.items) k;
        expires = λ j.
            lookup-delete (c.elems i).key j c.expires
            ∙ ap (λ (x : Text). if x =? j then none else lookup j c.expires) k;
        same_elems = refl;
      }

  -- Delete: it answers whether the key was there, and the callback sees exactly the entry that goes.
  pub delete_key-Deleted :
      (c : LruCache V) (key : Text)
      → IsLinked c
      → IsDated c.items c.expires
      → Deleted c (delete_key size c key).0 key
        × ((delete_key size c key).1 ≡ Spec.has key (entries c))
        × ((delete_key size c key).2 ≡ Spec.calls_of c.has_callback (Spec.find key (entries c)))
  unfolding delete_key Spec.has
  delete_key-Deleted c key l d = elim (Option-cases (lookup key c.items)) [
    | inl h ↦
        let (f, m) = entries-absent l key h in
        rw (delete_key, h, Spec.has, f) (delete_absent c key l d h, refl, refl)
    | inr (i, h) ↦
        let (f, m) = entries-present l key i h in
        rw (delete_key, h, Spec.has, f) (remove_present c key i l d h, refl, refl)
  ]

  -- A read of a key whose time has passed deletes it; any other read moves its entry to the front.
  pub get_past :
      (c : LruCache V) (key : Text) (now : ℤ)
      → IsLinked c
      → IsDated c.items c.expires
      → is_past now (lookup key c.expires) ≡ true
      → Deleted c (get size c key now).0 key
        × ((get size c key now).1 ≡ none)
        × ((get size c key now).2 ≡ Spec.calls_of c.has_callback (Spec.find key (entries c)))
  unfolding get
  get_past c key now l d p = elim (Option-cases (lookup key c.items)) [
    | inl h ↦ absurd (ground (arith, ap (is_past now) (undated key c.items c.expires d h)))
    | inr (i, h) ↦
        let (done, was, called) = delete_key-Deleted c key l d in
        rw (get, h, p) (done, refl, called)
  ]

  pub get_fresh :
      (c : LruCache V) (key : Text) (now : ℤ)
      → IsLinked c
      → is_past now (lookup key c.expires) ≡ false
      → IsLinked (get size c key now).0
        × ((get size c key now).0.items ≡ c.items)
        × ((get size c key now).0.expires ≡ c.expires)
        × ((entries (get size c key now).0, (get size c key now).1, (get size c key now).2)
            ≡ Spec.get key (entries c))
  unfolding get Spec.get move_to_front
  get_fresh c key now l p = elim (Option-cases (lookup key c.items)) [
    | inl h ↦ let (f, m) = entries-absent l key h in rw (get, h, Spec.get, f) (l, refl, refl, refl)
    | inr (i, h) ↦
        let (inside, k) = l.keyed key i h in
        let (f, m) = entries-present l key i h in
        let order = move_to_front_lem i c.list inside in
        rw (get, h, p, Spec.get, f, m) (front-Linked l i inside, refl, refl, rw order)
  ]
