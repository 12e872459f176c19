-- ===== src/Layer/Put/Known.antt =====
-- `put` of pkg/store/lru2.go for a key that has a node.
use cache_learning_notes.Base.{
  ℕ, ◌-◌, ◌≤◌, ◌<◌, ◌≡◌, refl, ◌∙◌, List, [], ◌∷◌, ◌++◌, map, Text, text_eq, arith, length,
  length-set, set, count,
}
use cache_learning_notes.Base.Int.{ℤ}
use cache_learning_notes.Layer.Cache.{Node, Value, Cache, adjust, put_known}
use cache_learning_notes.Layer.Model.{node, node-set_self, map-node-set, IsValid}
use cache_learning_notes.Layer.Reorder.{adjust_head, IsValid-reorder}
use cache_learning_notes.Layer.Slots.{
  count-to_front, length-to_front, once_around, slot_reads, slot_writes, names_kept, Puts, new_node,
}

module _ {V : Type 0} where
  module _ (c : Cache V) (size : ℕ) (key : Text) (val : Value V) (e : ℤ) where
    abbrev fresh : Node V
    fresh = new_node key val e

    pub put_known_lem :
        (xs : List ℕ) (i : ℕ) (ys : List ℕ)
        → IsValid c (xs ++ i ∷ ys)
        → length c.m ≡ size
        → (node c.m i).k ≡ key
        → 0 < i
        → i ≤ c.last
        → Puts (put_known c i val e) size (fresh ∷ map (node c.m) (xs ++ ys), 0, [])
    unfolding put_known adjust count
    put_known_lem xs i ys valid capacity named p h =
        let old = node c.m i in
        let upd : Node V = record old { v = val; expire_at = e } in
        let m' = set c.m (i - 1) upd in
        let room : i ≤ length c.m = omega (arith, valid.fits) in
        let (d', run, wd, r) = adjust_head c xs i ys valid in
        let self : node m' i ≡ upd = node-set_self c.m i upd p room in
        let once = once_around xs i ys valid.order in
        (
          record c { m = m'; dlnk = d' },
          rw (slot_reads c.m i p room valid.small, slot_writes c.m i upd p room valid.small, run),
          record {
            ids = i ∷ xs ++ ys;
            valid =
                IsValid-reorder c (xs ++ i ∷ ys) valid (i ∷ xs ++ ys) m' d'
                  (length-set c.m (i - 1) upd)
                  (names_kept c.m i upd (xs ++ i ∷ ys) p refl room valid.order.no_zero) wd r
                  (count-to_front xs i ys) (length-to_front xs i ys);
            capacity = length-set c.m (i - 1) upd ∙ capacity;
            view = rw (self, named, map-node-set c.m i upd (xs ++ ys) p once.0 once.1);
          },
        )
