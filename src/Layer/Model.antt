-- ===== src/Layer/Model.antt =====
-- When a layer of pkg/store/lru2.go stands for a list of nodes: its invariant, and the facts about
-- slots, the map of keys and the order of nodes that the methods rest on.
use cache_learning_notes.Base.{
  ℕ, suc, ◌-◌, ◌≤◌, ◌<◌, ◌≡◌, refl, ◌≢◌, List, [], ◌∷◌, ◌++◌, map, none, some, Text, text_eq, arith,
  length, get_or, set, get_or-set_self, get_or-set_ne, count, hit_self,
}
use cache_learning_notes.Base.Dict.{lookup}
use cache_learning_notes.Layer.Adjust.{Ring, IsOrder}
use cache_learning_notes.Layer.Cache.{Node, Cache, slot, zero_node}
use cache_learning_notes.Layer.Links.{next}
use cache_learning_notes.Layer.Spec.{pop_back, find, remove}

pub slot_lem : (i : ℕ) → 0 < i → i < 65536 → slot i ≡ i - 1
slot_lem i p h = omega arith

module _ {V : Type 0} where
  -- The node that has the number `i`.
  unfoldable pub node : List (Node V) → ℕ → Node V
  node m i = get_or m (i - 1) zero_node

  pub node-set_self :
      (m : List (Node V)) (i : ℕ) (e : Node V) → 0 < i → i ≤ length m → node (set m (i - 1) e) i ≡ e
  unfolding node
  node-set_self m i e p h = get_or-set_self m (i - 1) e zero_node (omega arith)

  pub node-set_ne :
      (m : List (Node V)) (i j : ℕ) (e : Node V)
      → 0 < i
      → 0 < j
      → i ≢ j
      → node (set m (i - 1) e) j ≡ node m j
  unfolding node
  node-set_ne m i j e p q h = get_or-set_ne m (i - 1) (j - 1) e zero_node (omega arith)

  -- Writing one node changes nothing in a list of others.
  pub map-node-set :
      (m : List (Node V)) (i : ℕ) (e : Node V) (ids : List ℕ)
      → 0 < i
      → count 0 ids ≡ 0
      → count i ids ≡ 0
      → map (node (set m (i - 1) e)) ids ≡ map (node m) ids
  unfolding count
  map-node-set m i e [] p z c = refl
  map-node-set m i e (j ∷ ids) p z c =
      let rest = map-node-set m i e ids p (omega arith) (omega arith) in
      rw (node-set_ne m i j e p (ground arith) (ground arith), rest)

  -- The invariant. `ids` are the numbers of the nodes from the head to the tail.
  pub record IsValid (c : Cache V) (ids : List ℕ) : Type 0 where
    pub width : length c.dlnk ≡ suc (length c.m)
    pub nonempty : 0 < length c.m
    pub small : length c.m < 65535
    pub fits : c.last ≤ length c.m
    pub ring : Ring c.dlnk next ids
    pub order : IsOrder ids (suc c.last)
    pub sized : length ids ≡ c.last
    pub keyed :
        (key : Text) (i : ℕ)
        → lookup key c.hmap ≡ some i
        → (0 < count i ids) × ((node c.m i).k ≡ key)
    pub indexed : (i : ℕ) → 0 < count i ids → lookup (node c.m i).k c.hmap ≡ some i

  -- A layer of capacity `cap` that holds the nodes `s`, the most recently used first.
  pub record Models (c : Cache V) (cap : ℕ) (s : List (Node V)) : Type 0 where
    pub ids : List ℕ
    pub valid : IsValid c ids
    pub capacity : length c.m ≡ cap
    pub view : map (node c.m) ids ≡ s

  pub find-none :
      (m : List (Node V)) (key : Text) (ids : List ℕ)
      → ((i : ℕ) → 0 < count i ids → (node m i).k ≢ key)
      → find key (map (node m) ids) ≡ none
  unfolding find count
  find-none m key [] h = refl
  find-none m key (i ∷ ids) h =
      let rest = find-none m key ids (λ j c. h j (omega arith)) in
      let other = h i (omega (arith, hit_self i)) in
      ground (arith, rest, other, text_eq.beq_iff (node m i).k key)

  pub find-some :
      (m : List (Node V)) (key : Text) (xs : List ℕ) (i : ℕ) (ys : List ℕ)
      → ((j : ℕ) → 0 < count j xs → (node m j).k ≢ key)
      → (node m i).k ≡ key
      → (find key (map (node m) (xs ++ i ∷ ys)) ≡ some (node m i))
        × (remove key (map (node m) (xs ++ i ∷ ys)) ≡ map (node m) (xs ++ ys))
  unfolding find remove count
  find-some m key [] i ys h e = ground (arith, text_eq.beq_iff (node m i).k key)
  find-some m key (x ∷ xs) i ys h e =
      let rest = find-some m key xs i ys (λ j c. h j (omega arith)) e in
      let other = h x (omega (arith, hit_self x)) in
      ground (arith, rest, other, text_eq.beq_iff (node m x).k key)

pub pop_back-append {ℓ} :
    {A : Type ℓ} (xs : List A) (x : A) → pop_back (xs ++ x ∷ []) ≡ some (xs, x)
unfolding pop_back
pop_back-append [] x = refl
pop_back-append (y ∷ xs) x = rw (pop_back-append xs x)

-- A list that is not empty has a last element.
pub split_last {ℓ} :
    {A : Type ℓ} (xs : List A) → 0 < length xs → (ys : List A) × (y : A) × (xs ≡ ys ++ y ∷ [])
split_last (x ∷ []) h = ([], x, refl)
split_last (x ∷ x' ∷ xs) h =
    let (ys, y, e) = split_last (x' ∷ xs) (omega arith) in (x ∷ ys, y, rw (← e))
split_last [] h = elim h [ ]
