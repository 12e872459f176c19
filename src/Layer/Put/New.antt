-- ===== src/Layer/Put/New.antt =====
-- `put` of pkg/store/lru2.go for a new key in a layer that has room.
use cache_learning_notes.Base.{
  ℕ, ◌+◌, ◌-◌, ◌<◌, ◌≡◌, refl, ◌∙◌, List, [], ◌∷◌, map, none, some, Text, text_eq, arith, length,
  length-set, set, count, hit_self, ok, write, ◌==◌, if◌then◌else◌,
}
use cache_learning_notes.Base.Dict.{lookup, insert}
use cache_learning_notes.Base.Int.{ℤ}
use cache_learning_notes.Layer.Index.{Index-insert, IsValid-IsIndex}
use cache_learning_notes.Layer.Push.{IsOrder-push, push-fresh, push_links, head_link}
use cache_learning_notes.Layer.Ring.{first}
use cache_learning_notes.Layer.Cache.{Node, Value, Cache, u16, adjust, put_new}
use cache_learning_notes.Layer.Links.{prev, next, Link, link, set_link}
use cache_learning_notes.Layer.Model.{node, node-set_self, map-node-set, IsValid}
use cache_learning_notes.Layer.Slots.{slot_writes, Puts, new_node}

not_empty :
    (hmap : List (Text × ℕ)) (key : Text) (i : ℕ) → lookup key hmap ≡ some i → 0 < length hmap
unfolding lookup
not_empty [] key i h = cc
not_empty (x ∷ hmap) key i h = omega arith

module _ {V : Type 0} where
  -- An empty map means an empty list, so both cases of `put` write to the same place.
  head_test :
      (c : Cache V) (ids : List ℕ)
      → IsValid c ids
      → (if length c.hmap == 0 then 0 else first ids 0) ≡ first ids 0
  unfolding count
  head_test c [] valid = ground arith
  head_test c (x ∷ ids) valid = ground (arith, not_empty c.hmap (node c.m x).k x found)
    where
      found : lookup (node c.m x).k c.hmap ≡ some x
      found = valid.indexed x (omega (arith, hit_self x))

  module _ (c : Cache V) (size : ℕ) (key : Text) (val : Value V) (e : ℤ) where
    abbrev fresh : Node V
    fresh = new_node key val e

    put_new_run :
        (ids : List ℕ) (d₁ d₂ d₃ : List Link)
        → IsValid c ids
        → c.last < length c.m
        → set_link c.dlnk (first ids 0) prev (c.last + 1) ≡ ok d₁
        → link d₁ 0 next ≡ ok (first ids 0)
        → write d₁ (c.last + 1) (record { p = 0; n = first ids 0 }) ≡ ok d₂
        → set_link d₂ 0 next (c.last + 1) ≡ ok d₃
        → put_new c key val e
          ≡ ok (
            record {
              dlnk = d₃;
              m = set c.m (c.last + 1 - 1) fresh;
              hmap = insert key (c.last + 1) c.hmap;
              last = c.last + 1;
            },
            1,
            [],
          )
    unfolding put_new
    put_new_run ids d₁ d₂ d₃ valid room run₁ read run₂ run₃ =
        let wraps : u16 (c.last + 1) ≡ c.last + 1 = omega (arith, valid.small, room) in
        rw (
          wraps,
          head_link c.dlnk ids (omega (arith, valid.width)) valid.ring,
          head_test c ids valid,
          run₁,
          slot_writes c.m (c.last + 1) fresh (omega arith) (omega arith) valid.small,
          read,
          run₂,
          run₃,
        )

    pub put_new_lem :
        (ids : List ℕ)
        → IsValid c ids
        → length c.m ≡ size
        → lookup key c.hmap ≡ none
        → c.last < length c.m
        → Puts (put_new c key val e) size (fresh ∷ map (node c.m) ids, 1, [])
    unfolding put_new adjust count
    put_new_lem ids valid capacity miss room =
        let l = c.last + 1 in
        let m' = set c.m (l - 1) fresh in
        let unused : count l ids ≡ 0 = push-fresh ids c.last valid.order in
        let (d₁, d₂, d₃, run₁, read, run₂, run₃, wd, r) =
          push_links c.dlnk (length c.dlnk) ids l refl
            (IsOrder-push ids c.last valid.order (omega (arith, valid.width))) valid.ring in
        let index =
          Index-insert c.m c.hmap ids l fresh (IsValid-IsIndex c valid) miss unused
            valid.order.no_zero (omega arith) (omega arith) in
        (
          record { dlnk = d₃; m = m'; hmap = insert key l c.hmap; last = l },
          put_new_run ids d₁ d₂ d₃ valid room run₁ read run₂ run₃,
          record {
            ids = l ∷ ids;
            valid = record {
              width = omega (arith, wd, valid.width, length-set c.m (l - 1) fresh);
              nonempty = omega (arith, valid.nonempty, length-set c.m (l - 1) fresh);
              small = omega (arith, valid.small, length-set c.m (l - 1) fresh);
              fits = omega (arith, room, length-set c.m (l - 1) fresh);
              ring = r;
              order = IsOrder-push ids c.last valid.order (omega arith);
              sized = omega (arith, valid.sized);
              keyed = index.keyed;
              indexed = index.indexed;
            };
            capacity = length-set c.m (l - 1) fresh ∙ capacity;
            view = rw (
              node-set_self c.m l fresh (omega arith) (omega arith),
              map-node-set c.m l fresh ids (omega arith) valid.order.no_zero unused,
            );
          },
        )
