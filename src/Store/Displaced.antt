-- ===== src/Store/Displaced.antt =====
-- The copy of the tail that `SetWithExpiration` of pkg/store/lru2.go makes before it writes.
use mathlib.Core.List.{map-append}
use cache_learning_notes.Base.{
  ℕ, ◌≤◌, ◌≡◌, ◌≢◌, sym, ap, ◌∙◌, subst, inl, inr, List, [], ◌∷◌, ◌++◌, map, none, some, true, Text,
  text_eq, arith, length, ltb, ◌==◌, ==_refl, ==_ne, Bool-cases, Option-cases, ok, count,
  count-append, hit_self,
}
use cache_learning_notes.Base.Dict.{lookup}
use cache_learning_notes.Layer.Cache.{Node, Cache, u16}
use cache_learning_notes.Layer.Model.{node, IsValid, Models, find-some, split_last, pop_back-append}
use cache_learning_notes.Layer.Push.{tail_link}
use cache_learning_notes.Layer.Put.{Models-length}
use cache_learning_notes.Layer.Reads.{victim}
use cache_learning_notes.Layer.Reorder.{located}
use cache_learning_notes.Layer.Slots.{slot_reads, unknown}
use cache_learning_notes.Layer.Spec.{find, pop_back}
use cache_learning_notes.Store.Bucket.{displaced}
use cache_learning_notes.Store.Model.{if_positive}

module _ {V : Type 0} (c : Cache V) (size : ℕ) (s : List (Node V)) (key : Text)
    (model : Models c size s) where
  known : (i : ℕ) → lookup key c.hmap ≡ some i → (e : Node V) × (find key s ≡ some e)
  known i found =
      let (xs, ys, split, others, p, h) = located c model.ids model.valid key i found in
      let named = (model.valid.keyed key i found).1 in
      let view : s ≡ map (node c.m) (xs ++ i ∷ ys) = sym model.view ∙ ap (map (node c.m)) split in
      (node c.m i, ap (find key) view ∙ (find-some c.m key xs i ys others named).0)

  tail_positive :
      (xs : List ℕ) (i : ℕ) → IsValid c (xs ++ i ∷ []) → (ltb 0 i ≡ true) × (i ≤ length c.m)
  unfolding count
  tail_positive xs i valid =
      let there = count-append i xs (i ∷ []) in
      let low = valid.order.below i (omega (arith, there, hit_self i)) in
      (
        ground (arith, valid.order.no_zero, count-append 0 xs (i ∷ [])),
        omega (arith, low, valid.fits),
      )

  displaced_full :
      (xs : List ℕ) (i : ℕ)
      → IsValid c (xs ++ i ∷ [])
      → lookup key c.hmap ≡ none
      → c.last ≡ length c.m
      → s ≡ map (node c.m) xs ++ node c.m i ∷ []
      → displaced c key ≡ ok (if_positive (victim size key s))
  unfolding displaced victim
  displaced_full xs i valid miss same view =
      let popped = ap pop_back view ∙ pop_back-append (map (node c.m) xs) (node c.m i) in
      let (p, room) = tail_positive xs i valid in
      let len = Models-length c size s model in
      let filled : length s ≡ size = omega (arith, len, model.capacity, same) in
      let wraps : u16 (length c.m) ≡ c.last = omega (arith, model.valid.small, same) in
      rw (
        miss,
        displaced,
        wraps,
        ==_refl c.last,
        tail_link c.dlnk xs i (omega (arith, valid.width)) valid.ring,
        p,
        slot_reads c.m i (ground arith) room valid.small,
        unknown c size s key model miss,
        victim,
        filled,
        ==_refl size,
        popped,
      )

  -- It is the node that the write will displace, if that is valid.
  pub displaced_lem : displaced c key ≡ ok (if_positive (victim size key s))
  unfolding displaced victim
  displaced_lem = elim (Option-cases (lookup key c.hmap)) [
    | inr (i, found) ↦ rw (found, displaced, (known i found).1, victim)
    | inl miss ↦
        let new = unknown c size s key model miss in
        let len = Models-length c size s model in
        elim (Bool-cases (c.last == length c.m)) [
          | inr room ↦
              let apart : c.last ≢ length c.m = ground arith in
              rw (
                miss,
                displaced,
                ==_ne c.last (u16 (length c.m)) (omega (arith, model.valid.small, apart)),
                new,
                victim,
                ==_ne (length s) size (omega (arith, len, model.capacity, apart)),
              )
          | inl full ↦
              let same : c.last ≡ length c.m = ground arith in
              let (xs, i, split) =
                split_last model.ids (omega (arith, model.valid.sized, model.valid.nonempty)) in
              displaced_full xs i (subst (IsValid c) split model.valid) miss same
                (sym model.view ∙ ap (map (node c.m)) split ∙ map-append (node c.m) xs (i ∷ []))
        ]
  ]
