-- ===== src/Layer/Put/Full.antt =====
-- `put` of pkg/store/lru2.go for a new key in a full layer.
use cache_learning_notes.Base.{
  ℕ, ◌-◌, ◌≤◌, ◌<◌, ◌≡◌, ◌≢◌, ap, ◌∙◌, List, [], ◌∷◌, ◌++◌, map, none, Bool, Text, text_eq, arith,
  length, length-set, set, hit, count, count-append, hit_self, ok,
}
use mathlib.Core.List.{append-nil}
use cache_learning_notes.Base.Dict.{lookup, insert, delete}
use cache_learning_notes.Base.Int.{ℤ}
use cache_learning_notes.Layer.Adjust.{IsOrder-to_front}
use cache_learning_notes.Layer.Index.{Index-insert, Index-delete, IsValid-IsIndex}
use cache_learning_notes.Layer.Push.{tail_link}
use cache_learning_notes.Layer.Cache.{Node, Value, Cache, adjust, put_full}
use cache_learning_notes.Layer.Links.{prev, link}
use cache_learning_notes.Layer.Model.{node, node-set_self, map-node-set, IsValid}
use cache_learning_notes.Layer.Reorder.{adjust_head}
use cache_learning_notes.Layer.Spec
use cache_learning_notes.Layer.Slots.{
  length-to_front, once_around, lookup-delete-none, slot_reads, slot_writes, Puts, new_node,
}

module _ {V : Type 0} where
  module _ (c : Cache V) (size : ℕ) (key : Text) (val : Value V) (e : ℤ) (cb : Bool) where
    abbrev fresh : Node V
    fresh = new_node key val e

    pub put_full_lem :
        (xs : List ℕ) (i : ℕ)
        → IsValid c (xs ++ i ∷ [])
        → length c.m ≡ size
        → lookup key c.hmap ≡ none
        → Puts
            (put_full c key val e cb)
            size
            (fresh ∷ map (node c.m) xs, 1, Spec.evictions cb (node c.m i))
    unfolding put_full adjust count
    put_full_lem xs i valid capacity miss =
        let tail = node c.m i in
        let m' = set c.m (i - 1) fresh in
        let there = count-append i xs (i ∷ []) in
        let nz : i ≢ 0 = λ q.
          omega (arith, valid.order.no_zero, count-append 0 xs (i ∷ []), ap (λ w. hit 0 w) q) in
        let p : 0 < i = omega (arith, nz) in
        let low = valid.order.below i (omega (arith, there, hit_self i)) in
        let room : i ≤ length c.m = omega (arith, low, valid.fits) in
        let (d', run, wd, r) = adjust_head c xs i [] valid in
        let once = once_around xs i [] valid.order in
        let read : link c.dlnk 0 prev ≡ ok i =
          tail_link c.dlnk xs i (omega (arith, valid.width)) valid.ring in
        let index =
          Index-insert c.m (delete tail.k c.hmap) (xs ++ []) i fresh
            (Index-delete c.m c.hmap xs i [] (IsValid-IsIndex c valid) valid.order.once)
            (lookup-delete-none tail.k key c.hmap miss) once.1 once.0 p room in
        (
          record { dlnk = d'; m = m'; hmap = insert key i (delete tail.k c.hmap); last = c.last },
          rw (
            read,
            slot_reads c.m i p room valid.small,
            slot_writes c.m i fresh p room valid.small,
            run,
          ),
          record {
            ids = i ∷ xs ++ [];
            valid = record {
              width = omega (arith, wd, valid.width, length-set c.m (i - 1) fresh);
              nonempty = omega (arith, valid.nonempty, length-set c.m (i - 1) fresh);
              small = omega (arith, valid.small, length-set c.m (i - 1) fresh);
              fits = omega (arith, valid.fits, length-set c.m (i - 1) fresh);
              ring = r;
              order = IsOrder-to_front xs i [] valid.order;
              sized = length-to_front xs i [] ∙ valid.sized;
              keyed = index.keyed;
              indexed = index.indexed;
            };
            capacity = length-set c.m (i - 1) fresh ∙ capacity;
            view = rw (
              node-set_self c.m i fresh p room,
              map-node-set c.m i fresh (xs ++ []) p once.0 once.1,
              append-nil,
            );
          },
        )
