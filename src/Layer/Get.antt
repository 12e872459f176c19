-- ===== src/Layer/Get.antt =====
-- `get` of pkg/store/lru2.go against the list of nodes.
use cache_learning_notes.Base.{
  ℕ, ◌≤◌, ◌<◌, ◌≡◌, refl, sym, ap, ◌∙◌, subst, inl, inr, List, ◌∷◌, ◌++◌, map, none, some, Text,
  text_eq, arith, length, ok, Option-cases,
}
use cache_learning_notes.Base.Dict.{lookup}
use cache_learning_notes.Layer.Cache.{Node, Cache, adjust, get}
use cache_learning_notes.Layer.Model.{node, IsValid, Models, find-some}
use cache_learning_notes.Layer.Reorder.{adjust_head, IsValid-reorder, located}
use cache_learning_notes.Layer.Spec
use cache_learning_notes.Layer.Slots.{count-to_front, length-to_front, slot_reads, Gives, unknown}

module _ {V : Type 0} where
  module _ (c : Cache V) (size : ℕ) (xs : List ℕ) (i : ℕ) (ys : List ℕ)
      (valid : IsValid c (xs ++ i ∷ ys)) (capacity : length c.m ≡ size) (p : 0 < i)
      (h : i ≤ c.last) where
    room : i ≤ length c.m
    room = omega (arith, valid.fits)

    get_known :
        (key : Text)
        → lookup key c.hmap ≡ some i
        → Gives (get c key) size (node c.m i ∷ map (node c.m) (xs ++ ys), some (node c.m i))
    unfolding get adjust
    get_known key found =
        let (d', run, wd, r) = adjust_head c xs i ys valid in
        (
          record c { dlnk = d' },
          rw (found, get, run, slot_reads c.m i p room valid.small),
          record {
            ids = i ∷ xs ++ ys;
            valid =
                IsValid-reorder c (xs ++ i ∷ ys) valid (i ∷ xs ++ ys) c.m d' refl (λ j _. refl) wd r
                  (count-to_front xs i ys) (length-to_front xs i ys);
            capacity = capacity;
            view = refl;
          },
        )

  get_miss : (c : Cache V) (key : Text) → lookup key c.hmap ≡ none → get c key ≡ ok (c, none)
  unfolding get
  get_miss c key miss = rw (miss, get)

  -- In a valid layer `get` does not panic; it returns the key's node, valid or not, and moves it to
  -- the front.
  pub get-Models :
      (c : Cache V) (size : ℕ) (s : List (Node V)) (key : Text)
      → Models c size s
      → Gives (get c key) size (Spec.get key s)
  get-Models c size s key model = elim (Option-cases (lookup key c.hmap)) [
    | inr (i, found) ↦
        let (xs, ys, split, others, p, h) = located c model.ids model.valid key i found in
        let valid = subst (IsValid c) split model.valid in
        let named = (model.valid.keyed key i found).1 in
        let (known, removed) = find-some c.m key xs i ys others named in
        let view : s ≡ map (node c.m) (xs ++ i ∷ ys) = sym model.view ∙ ap (map (node c.m)) split in
        rw
          (
            Spec.get-known key s (ap (Spec.find key) view ∙ known),
            ap (Spec.remove key) view ∙ removed,
          )
          (get_known c size xs i ys valid model.capacity p h key found)
    | inl miss ↦
        rw (Spec.get-unknown key s (unknown c size s key model miss))
          (c, get_miss c key miss, model)
  ]
