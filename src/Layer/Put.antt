-- ===== src/Layer/Put.antt =====
-- `put` of pkg/store/lru2.go against the list of nodes.
mod Known
mod Full
mod New
use Known.{put_known_lem}
use Full.{put_full_lem}
use New.{put_new_lem}
use cache_learning_notes.Base.{
  ℕ, zero, suc, ◌+◌, ◌-◌, ◌≤◌, ◌<◌, ◌≡◌, refl, ◌≢◌, sym, ap, ◌∙◌, subst, inl, inr, List, [], ◌∷◌,
  ◌++◌, map, Option, none, some, Bool, true, false, Text, text_eq, =?_refl, arith, length,
  length-set, length-append, get_or, set, hit, count, count-append, hit_self, ok, Exec, ◌>>=◌, at,
  write, at-get_or, write-set, ◌==◌, if◌then◌else◌, Bool-cases, Option-cases, ==_refl, ==_ne,
}
use mathlib.Core.List.{map-append, append-nil}
use cache_learning_notes.Base.Dict.{lookup, insert, delete, lookup-insert, lookup-delete}
use cache_learning_notes.Base.Int.{ℤ}
use cache_learning_notes.Layer.Adjust.{IsOrder, IsOrder-to_front}
use cache_learning_notes.Layer.Index.{Index-insert, Index-delete, IsValid-IsIndex}
use cache_learning_notes.Layer.Push.{IsOrder-push, push-fresh, push_links, head_link, tail_link}
use cache_learning_notes.Layer.Ring.{first}
use cache_learning_notes.Layer.Cache.{
  Node, Value, Cache, Calls, slot, u16, zero_node, adjust, put_known, put_full, put_new, put,
  positive,
}
use cache_learning_notes.Layer.Links.{prev, next, Link, link, set_link, adjust_links}
use cache_learning_notes.Layer.Model.{
  slot_lem, node, node-set_self, node-set_ne, map-node-set, IsValid, Models, find-none, find-some,
  pop_back-append, split_last,
}
use cache_learning_notes.Layer.Reorder.{adjust_head, IsValid-reorder, located, absent}
use cache_learning_notes.Layer.Spec
use cache_learning_notes.Layer.Slots.{
  count-to_front, length-to_front, once_around, lookup-delete-none, slot_reads, slot_writes,
  names_kept, Puts, new_node,
}

module _ {V : Type 0} where
  module _ (c : Cache V) (key : Text) (val : Value V) (e : ℤ) (cb : Bool) where
    put-known : {i : ℕ} → lookup key c.hmap ≡ some i → put c key val e cb ≡ put_known c i val e
    unfolding put
    put-known h = rw (h, put)

    put-full :
        lookup key c.hmap ≡ none
        → c.last ≡ u16 (length c.m)
        → put c key val e cb ≡ put_full c key val e cb
    unfolding put
    put-full h full = rw (h, put, full, ==_refl)

    put-new :
        lookup key c.hmap ≡ none
        → c.last ≢ u16 (length c.m)
        → put c key val e cb ≡ put_new c key val e
    unfolding put
    put-new h apart = rw (h, put, ==_ne c.last (u16 (length c.m)) apart)

  -- The number of nodes that a layer has given out is the length of its list.
  pub Models-length :
      (c : Cache V) (size : ℕ) (s : List (Node V)) → Models c size s → length s ≡ c.last
  Models-length c size s model =
      ap length (sym model.view) ∙ length-map model.ids ∙ model.valid.sized
    where
      length-map : (ids : List ℕ) → length (map (node c.m) ids) ≡ length ids
      length-map [] = refl
      length-map (i ∷ ids) = ap suc (length-map ids)

  put_miss_full :
      (c : Cache V) (size : ℕ) (s : List (Node V)) (key : Text) (val : Value V) (e : ℤ) (cb : Bool)
      → Models c size s
      → lookup key c.hmap ≡ none
      → Spec.find key s ≡ none
      → c.last ≡ length c.m
      → Puts (put c key val e cb) size (Spec.put size key val e cb s)
  put_miss_full c size s key val e cb model miss unknown full =
      let (xs, i, split) =
        split_last model.ids (omega (arith, model.valid.sized, model.valid.nonempty)) in
      let valid = subst (IsValid c) split model.valid in
      let view : s ≡ map (node c.m) xs ++ node c.m i ∷ [] =
        sym model.view ∙ ap (map (node c.m)) split ∙ map-append (node c.m) xs (i ∷ []) in
      let popped = ap Spec.pop_back view ∙ pop_back-append (map (node c.m) xs) (node c.m i) in
      let count = Models-length c size s model in
      rw
        (
          put-full c key val e cb miss (omega (arith, full, valid.small)),
          Spec.put-full size key val e cb s unknown (omega (arith, count, full, model.capacity))
              popped,
        )
        (put_full_lem c size key val e cb xs i valid model.capacity miss)

  put_miss_new :
      (c : Cache V) (size : ℕ) (s : List (Node V)) (key : Text) (val : Value V) (e : ℤ) (cb : Bool)
      → Models c size s
      → lookup key c.hmap ≡ none
      → Spec.find key s ≡ none
      → c.last ≢ length c.m
      → Puts (put c key val e cb) size (Spec.put size key val e cb s)
  put_miss_new c size s key val e cb model miss unknown apart =
      let valid = model.valid in
      let count = Models-length c size s model in
      rw
        (
          put-new c key val e cb miss (omega (arith, apart, valid.small)),
          Spec.put-new size key val e cb s unknown (omega (arith, count, apart, model.capacity)),
          ← model.view,
        )
        (put_new_lem c size key val e model.ids valid model.capacity miss
          (omega (arith, valid.fits, apart)))

  -- In a valid layer `put` does not panic, and does to the list of nodes what the specification
  -- says: a known key is updated and comes first; a new one comes first, and in a full layer the
  -- last node goes.
  pub put-Models :
      (c : Cache V) (size : ℕ) (s : List (Node V)) (key : Text) (val : Value V) (e : ℤ) (cb : Bool)
      → Models c size s
      → Puts (put c key val e cb) size (Spec.put size key val e cb s)
  put-Models c size s key val e cb model = elim (Option-cases (lookup key c.hmap)) [
    | inr (i, found) ↦
        let (xs, ys, split, others, p, h) = located c model.ids model.valid key i found in
        let valid = subst (IsValid c) split model.valid in
        let named = (model.valid.keyed key i found).1 in
        let (known, removed) = find-some c.m key xs i ys others named in
        let view : s ≡ map (node c.m) (xs ++ i ∷ ys) = sym model.view ∙ ap (map (node c.m)) split in
        let spec = Spec.put-known size key val e cb s (ap (Spec.find key) view ∙ known) in
        let kept = ap (Spec.remove key) view ∙ removed in
        rw (put-known c key val e cb found, spec, kept)
          (put_known_lem c size key val e xs i ys valid model.capacity named p h)
    | inl miss ↦
        let unknown =
          ap (Spec.find key) (sym model.view)
          ∙ find-none c.m key model.ids (absent c model.ids model.valid key miss) in
        elim (Bool-cases (c.last == length c.m)) [
          | inl full ↦ put_miss_full c size s key val e cb model miss unknown (ground arith)
          | inr apart ↦ put_miss_new c size s key val e cb model miss unknown (ground arith)
        ]
  ]
