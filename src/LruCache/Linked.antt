-- ===== src/LruCache/Linked.antt =====
-- The list of elements and the map `items` of pkg/store/lru.go belong together: the invariant, and
-- what it is after an element is taken out, written or added.
use cache_learning_notes.Base.{
  ℕ, suc, ◌≤◌, ◌<◌, ◌≡◌, List, [], ◌∷◌, map, none, some, Text, text_eq, arith, count, hit_self,
  hit_ne, inl, inr, Bool-cases, ◌==◌, sym, ◌∙◌, =?_refl,
}
use cache_learning_notes.Base.Dict.{lookup, insert, delete, lookup-insert, lookup-delete}
use cache_learning_notes.LruCache.Cache.{LruEntry, erase, move_to_front, point_at}
use cache_learning_notes.LruCache.Lists.{count-erase, count-move_to_front, find-none, find-some}
use cache_learning_notes.LruCache.Spec.{find, remove}

module _ {V : Type 0} where
  -- Every element stands once in the list, and `items` has exactly the keys of their entries.
  pub record Linked (list : List ℕ) (elems : ℕ → LruEntry V) (next : ℕ) (items : List (Text × ℕ))
      : Type 0 where
    pub once : (i : ℕ) → count i list ≤ 1
    pub below : (i : ℕ) → 0 < count i list → i < next
    pub indexed : (i : ℕ) → 0 < count i list → lookup (elems i).key items ≡ some i
    pub keyed :
        (key : Text) (i : ℕ)
        → lookup key items ≡ some i
        → (0 < count i list) × ((elems i).key ≡ key)

  pub empty-Linked : (elems : ℕ → LruEntry V) (next : ℕ) → Linked [] elems next []
  unfolding count lookup
  empty-Linked elems next = record {
    once = λ i. omega arith;
    below = λ i h. absurd (omega arith);
    indexed = λ i h. absurd (omega arith);
    keyed = λ key i h. absurd (ground arith);
  }

  module _ {list : List ℕ} {elems : ℕ → LruEntry V} {next : ℕ} {items : List (Text × ℕ)}
      (l : Linked list elems next items) where
    -- Two elements of the list with the same key are the same.
    pub same_key :
        (i j : ℕ) → 0 < count i list → 0 < count j list → (elems i).key ≡ (elems j).key → i ≡ j
    same_key i j c d e = ground (arith, l.indexed i c, l.indexed j d)

    pub erase-Linked :
        (i : ℕ) → 0 < count i list → Linked (erase i list) elems next (delete (elems i).key items)
    erase-Linked i c = record {
      once = λ j. omega (arith, count-erase i j list, l.once j);
      below = λ j h. l.below j (omega (arith, count-erase i j list));
      indexed = λ j h.
          let rest = count-erase i j list in
          let top = l.once i in
          let own = hit_self i in
          let d : 0 < count j list = omega (arith) in
          ground (
            arith,
            same_key i j c d,
            text_eq.beq_iff (elems i).key (elems j).key,
            l.indexed j d,
            lookup-delete (elems i).key (elems j).key items,
          );
      keyed = λ key j h. ground (
        arith,
        text_eq.beq_iff (elems i).key key,
        l.keyed key j,
        hit_ne j i,
        count-erase i j list,
        lookup-delete (elems i).key key items,
      );
    }

    pub point_at-key :
        (i j : ℕ) (v : V)
        → (point_at i (record (elems i) { value = v }) elems j).key ≡ (elems j).key
    point_at-key i j v = elim (Bool-cases (i == j)) [ inl e ↦ ground arith | inr e ↦ ground arith ]

    pub overwrite-Linked :
        (i : ℕ) (v : V)
        → 0 < count i list
        → Linked
            (move_to_front i list)
            (point_at i (record (elems i) { value = v }) elems)
            next
            items
    overwrite-Linked i v c = record {
      once = λ j. omega (arith, count-move_to_front i j list, l.once j);
      below = λ j h. l.below j (omega (arith, count-move_to_front i j list));
      indexed =
          λ j h. rw (point_at-key i j v, l.indexed j (omega (arith, count-move_to_front i j list)));
      keyed = λ key j h.
          let (d, e) = l.keyed key j h in
          (omega (arith, count-move_to_front i j list), point_at-key i j v ∙ e);
    }

    pub front-Linked : (i : ℕ) → 0 < count i list → Linked (move_to_front i list) elems next items
    front-Linked i c = record {
      once = λ j. omega (arith, count-move_to_front i j list, l.once j);
      below = λ j h. l.below j (omega (arith, count-move_to_front i j list));
      indexed = λ j h. l.indexed j (omega (arith, count-move_to_front i j list));
      keyed = λ key j h.
          let (d, e) = l.keyed key j h in (omega (arith, count-move_to_front i j list), e);
    }

    pub point_at_old :
        (e : LruEntry V) (j : ℕ) → 0 < count j list → point_at next e elems j ≡ elems j
    point_at_old e j c = ground (arith, l.below j c)

    pub push-Linked :
        (e : LruEntry V)
        → lookup e.key items ≡ none
        → Linked (next ∷ list) (point_at next e elems) (suc next) (insert e.key next items)
    unfolding count
    push-Linked e h = record {
      once = λ j. ground (arith, l.once j, l.below j);
      below = λ j c. ground (arith, l.below j);
      indexed = λ j c.
          let law = lookup-insert e.key (point_at next e elems j).key next items in
          elim (Bool-cases (next == j)) [
            | inl p ↦
                let q : next ≡ j = ground arith in
                let k : (point_at next e elems j).key ≡ e.key = rw p in
                law ∙ rw (k, =?_refl e.key, q)
            | inr p ↦
                let d : 0 < count j list = ground arith in
                let k : (point_at next e elems j).key ≡ (elems j).key = rw p in
                let old = l.indexed j d in
                ground (arith, law, k, old, h, text_eq.beq_iff e.key (point_at next e elems j).key)
          ];
      keyed = λ key j g.
          let law = lookup-insert e.key key next items in
          ground (arith, law, text_eq.beq_iff e.key key, l.keyed key j, l.below j, hit_self j);
    }

    -- What the map and the list of entries say of a key.
    pub entries-absent :
        (key : Text)
        → lookup key items ≡ none
        → (find key (map elems list) ≡ none) × (remove key (map elems list) ≡ map elems list)
    entries-absent key h = find-none elems key list (λ j c e. ground (arith, l.indexed j c))

    pub entries-present :
        (key : Text) (i : ℕ)
        → lookup key items ≡ some i
        → (find key (map elems list) ≡ some (elems i))
          × (remove key (map elems list) ≡ map elems (erase i list))
    entries-present key i h =
        let (c, e) = l.keyed key i h in
        find-some elems key i list e (λ j d p. same_key j i d c (p ∙ sym e)) c
