-- ===== src/Layer/Walk.antt =====
-- `walk` and `Create` of pkg/store/lru2.go against the list of nodes.
use cache_learning_notes.Base.{
  ℕ, zero, suc, ◌+◌, ◌≤◌, ◌<◌, ◌≡◌, refl, ap, inl, inr, List, [], ◌∷◌, map, Bool, true, false,
  arith, length, length-replicate, get_or-replicate, ok, if◌then◌else◌, Bool-cases, ==_ne, count,
  hit_self,
}
use cache_learning_notes.Base.Dict.{lookup}
use cache_learning_notes.Layer.Adjust.{held}
use cache_learning_notes.Layer.Cache.{
  Node, Cache, u16, walk, walk_from, create, positive, zero_node,
}
use cache_learning_notes.Layer.Links.{prev, next, Link}
use cache_learning_notes.Layer.Memory.{links_of, link_ahead, no_link}
use cache_learning_notes.Layer.Model.{node, Models}
use cache_learning_notes.Layer.Push.{head_link}
use cache_learning_notes.Layer.Ring.{Path2, first, Path2-first}
use cache_learning_notes.Layer.Slots.{slot_reads}
use cache_learning_notes.Layer.Spec

module _ {ℓ} {V : Type 0} {S : Type ℓ} (walker : S → Node V → S × Bool) where
  fold_nil : (s : S) → ok s ≡ ok (Spec.fold walker s (Spec.live []))
  unfolding Spec.fold Spec.live
  fold_nil s = refl

  -- One node of the list of valid nodes.
  fold_alive :
      (s : S) (e : Node V) (es : List (Node V))
      → positive e.expire_at ≡ true
      → Spec.fold walker s (Spec.live (e ∷ es)) ≡ (
          if (walker s e).1 then Spec.fold walker (walker s e).0 (Spec.live es) else (walker s e).0)
  unfolding Spec.fold Spec.live
  fold_alive s e es h = rw h

  fold_dead :
      (s : S) (e : Node V) (es : List (Node V))
      → positive e.expire_at ≡ false
      → Spec.fold walker s (Spec.live (e ∷ es)) ≡ Spec.fold walker s (Spec.live es)
  unfolding Spec.live
  fold_dead s e es h = rw h

  module _ (c : Cache V) (width : length c.dlnk ≡ suc (length c.m))
      (small : length c.m < 65535) where
    walk_from-fold :
        (rest : List ℕ) (a fuel : ℕ) (s : S)
        → Path2 (links_of next c.dlnk) (links_of prev c.dlnk) a rest 0
        → ((i : ℕ) → 0 < count i rest → (0 < i) × (i ≤ length c.m))
        → length rest < fuel
        → walk_from fuel c (first rest 0) walker s
          ≡ ok (Spec.fold walker s (Spec.live (map (node c.m) rest)))
    unfolding walk_from count
    walk_from-fold rest a zero s path inside h = elim h [ ]
    walk_from-fold [] a (suc fuel) s path inside h = fold_nil s
    walk_from-fold (x ∷ rest) a (suc fuel) s path inside h =
        let (p, low) = inside x (omega (arith, hit_self x)) in
        let e = node c.m x in
        let read = slot_reads c.m x p low small in
        let step =
          link_ahead c.dlnk next (length c.dlnk) _ _ (held c.dlnk next (length c.dlnk) refl) x
            (omega arith) in
        let onward = Path2-first (links_of next c.dlnk) (links_of prev c.dlnk) x rest 0 path.2 in
        let continue = λ (s' : S).
          walk_from-fold rest x fuel s' path.2 (λ i k. inside i (omega arith)) (omega arith) in
        elim (Bool-cases (positive e.expire_at)) [
          | inl alive ↦ elim (Bool-cases (walker s e).1) [
            | inl more ↦ rw (
              ==_ne x 0 (omega arith),
              read,
              alive,
              more,
              step,
              onward,
              continue (walker s e).0,
              fold_alive s e (map (node c.m) rest) alive,
              more,
            )
            | inr stop ↦ rw (
              ==_ne x 0 (omega arith),
              read,
              alive,
              stop,
              fold_alive s e (map (node c.m) rest) alive,
              stop,
            )
          ]
          | inr dead ↦ rw (
            ==_ne x 0 (omega arith),
            read,
            dead,
            step,
            onward,
            continue s,
            fold_dead s e (map (node c.m) rest) dead,
          )
        ]

  -- In a valid layer `walk` does not panic and ends within its fuel; the walker is called on the
  -- valid nodes, in the order of the list, up to the first call that returns false.
  pub walk-Models :
      (c : Cache V) (size : ℕ) (nodes : List (Node V)) (s : S)
      → Models c size nodes
      → walk c walker s ≡ ok (Spec.fold walker s (Spec.live nodes))
  unfolding walk
  walk-Models c size nodes s model =
      let valid = model.valid in
      rw (head_link c.dlnk model.ids (omega (arith, valid.width)) valid.ring, ← model.view)
        (walk_from-fold c valid.width valid.small model.ids 0 (length c.dlnk) s valid.ring.path
          (λ i there. (
            ground (arith, valid.order.no_zero, there),
            omega (arith, valid.order.below i there, valid.fits),
          ))
          (omega (arith, valid.width, valid.sized, valid.fits)))

-- A fresh layer is valid and empty, for every capacity from 1 to 65534.
pub create-Models :
    {V : Type 0} (size : ℕ) → 0 < size → size < 65535 → Models (create {V = V} size) size []
unfolding create count lookup links_of
create-Models {V} size p h =
    let nodes = length-replicate size (zero_node {V = V}) in
    let links = length-replicate (u16 (size + 1)) no_link in
    let first_link = get_or-replicate (u16 (size + 1)) 0 no_link in
    record {
      ids = [];
      valid = record {
        width = omega (arith, nodes, links);
        nonempty = omega (arith, nodes);
        small = omega (arith, nodes);
        fits = omega arith;
        ring = record { path = (ap Link.n first_link, ap Link.p first_link) };
        order = record {
          once = λ i. omega arith;
          no_zero = refl;
          below = λ i c. absurd (omega arith);
          room = omega arith;
        };
        sized = refl;
        keyed = λ key i found. cc;
        indexed = λ i there. absurd (omega arith);
      };
      capacity = nodes;
      view = refl;
    }
