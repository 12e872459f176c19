-- ===== src/Layer/Del.antt =====
-- `del` of pkg/store/lru2.go against the list of nodes.
use cache_learning_notes.Base.{
  ℕ, ◌-◌, ◌≤◌, ◌<◌, ◌≡◌, refl, sym, ap, ◌∙◌, subst, inl, inr, List, [], ◌∷◌, ◌++◌, map, none, some,
  true, false, Text, text_eq, arith, length, length-set, length-append, set, count, count-append,
  ok, Bool-cases, Option-cases,
}
use mathlib.Core.List.{map-append}
use cache_learning_notes.Base.Dict.{lookup}
use cache_learning_notes.Base.Int.{pos}
use cache_learning_notes.Layer.Cache.{Node, Cache, adjust, del, positive}
use cache_learning_notes.Layer.Model.{node, node-set_self, map-node-set, IsValid, Models, find-some}
use cache_learning_notes.Layer.Reorder.{adjust_tail, IsValid-reorder, located}
use cache_learning_notes.Layer.Spec
use cache_learning_notes.Layer.Slots.{
  once_around, slot_reads, slot_writes, names_kept, Gives, unknown,
}

count-to_back :
    (xs : List ℕ) (i : ℕ) (ys : List ℕ) (j : ℕ)
    → count j ((xs ++ ys) ++ i ∷ []) ≡ count j (xs ++ i ∷ ys)
unfolding count
count-to_back xs i ys j =
    omega
      (arith, count-append j (xs ++ ys) (i ∷ []), count-append j xs ys, count-append j xs (i ∷ ys))

length-to_back :
    (xs : List ℕ) (i : ℕ) (ys : List ℕ) → length ((xs ++ ys) ++ i ∷ []) ≡ length (xs ++ i ∷ ys)
length-to_back xs i ys =
    omega (arith, length-append (xs ++ ys) (i ∷ []), length-append xs ys, length-append xs (i ∷ ys))

module _ {V : Type 0} where
  module _ (c : Cache V) (size : ℕ) (xs : List ℕ) (i : ℕ) (ys : List ℕ)
      (valid : IsValid c (xs ++ i ∷ ys)) (capacity : length c.m ≡ size) (p : 0 < i)
      (h : i ≤ c.last) where
    room : i ≤ length c.m
    room = omega (arith, valid.fits)

    abbrev dead : Node V
    dead = record (node c.m i) { expire_at = pos 0 }

    del_known :
        (key : Text)
        → lookup key c.hmap ≡ some i
        → positive (node c.m i).expire_at ≡ true
        → Gives
            (del c key)
            size
            (map (node c.m) (xs ++ ys) ++ dead ∷ [], some (dead, (node c.m i).expire_at))
    unfolding del adjust
    del_known key found alive =
        let m' = set c.m (i - 1) dead in
        let (d', run, wd, r) = adjust_tail c xs i ys valid in
        let wm = length-set c.m (i - 1) dead in
        let self : node m' i ≡ dead = node-set_self c.m i dead p room in
        let once = once_around xs i ys valid.order in
        (
          record c { m = m'; dlnk = d' },
          rw (
            found,
            del,
            slot_reads c.m i p room valid.small,
            alive,
            slot_writes c.m i dead p room valid.small,
            run,
            slot_reads m' i p (omega (arith, wm, room)) (omega (arith, wm, valid.small)),
            self,
          ),
          record {
            ids = (xs ++ ys) ++ i ∷ [];
            valid =
                IsValid-reorder c (xs ++ i ∷ ys) valid ((xs ++ ys) ++ i ∷ []) m' d' wm
                  (names_kept c.m i dead (xs ++ i ∷ ys) p refl room valid.order.no_zero) wd r
                  (count-to_back xs i ys) (length-to_back xs i ys);
            capacity = wm ∙ capacity;
            view = rw (map-append, self, map-node-set c.m i dead (xs ++ ys) p once.0 once.1);
          },
        )

    del_dead :
        (key : Text)
        → lookup key c.hmap ≡ some i
        → positive (node c.m i).expire_at ≡ false
        → del c key ≡ ok (c, none)
    unfolding del
    del_dead key found gone = rw (found, del, slot_reads c.m i p room valid.small, gone)

  del_miss : (c : Cache V) (key : Text) → lookup key c.hmap ≡ none → del c key ≡ ok (c, none)
  unfolding del
  del_miss c key miss = rw (miss, del)

  -- In a valid layer `del` does not panic; a valid node of the key is made invalid and moves to the
  -- end, and a key that has no valid node changes nothing.
  pub del-Models :
      (c : Cache V) (size : ℕ) (s : List (Node V)) (key : Text)
      → Models c size s
      → Gives (del c key) size (Spec.del key s)
  del-Models c size s key model = elim (Option-cases (lookup key c.hmap)) [
    | inr (i, found) ↦
        let (xs, ys, split, others, p, h) = located c model.ids model.valid key i found in
        let valid = subst (IsValid c) split model.valid in
        let named = (model.valid.keyed key i found).1 in
        let (known, removed) = find-some c.m key xs i ys others named in
        let view : s ≡ map (node c.m) (xs ++ i ∷ ys) = sym model.view ∙ ap (map (node c.m)) split in
        let there = ap (Spec.find key) view ∙ known in
        elim (Bool-cases (positive (node c.m i).expire_at)) [
          | inl alive ↦
              rw (Spec.del-alive key s there alive, ap (Spec.remove key) view ∙ removed)
                (del_known c size xs i ys valid model.capacity p h key found alive)
          | inr gone ↦
              rw (Spec.del-dead key s there gone)
                (c, del_dead c size xs i ys valid model.capacity p h key found gone, model)
        ]
    | inl miss ↦
        rw (Spec.del-unknown key s (unknown c size s key model miss))
          (c, del_miss c key miss, model)
  ]
