-- ===== src/ConHash/Members.antt =====
-- `Add` and `Remove` of internal/consistenthash/con_hash.go: the points of the ring.
use cache_learning_notes.Base.{
  ℕ, zero, suc, ◌+◌, ◌-◌, ◌≡◌, refl, ◌∙◌, inl, inr, List, [], ◌∷◌, Option, none, some, true, Text,
  text_eq, nat_eq, ◌=?◌, arith, ◌==◌, ltb, if◌then◌else◌, Bool-cases, ok, count, count-append, hit,
}
use cache_learning_notes.Base.Dict.{lookup, delete, lookup-insert, lookup-delete}
use cache_learning_notes.Base.Int.{ℤ, pos_part}
use cache_learning_notes.ConHash.Lookup.{Sorted}
use cache_learning_notes.ConHash.Map
use cache_learning_notes.ConHash.Map.{
  Map, virtual_name, add_points, remove_points, is_present, or_zero,
}
use cache_learning_notes.ConHash.Points.{count-sort_ints, sort_ints-Sorted, slice_remove-Removed}

-- The points of `n` replicas of an address, from number `i` on.
unfoldable pub points : (Text → ℕ) → Text → ℕ → ℕ → List ℕ
points hash addr zero i = []
points hash addr (suc n) i = hash (virtual_name addr i) ∷ points hash addr n (i + 1)

-- An overwritten key and those to come are the keys that are overwritten.
overwritten :
    (k h c : ℕ) (value now old : Option Text)
    → now ≡ (if h == k then value else old)
    → (if ltb 0 c then value else now) ≡ (if ltb 0 (hit k h + c) then value else old)
overwritten k h c value now old e = ground (arith, e)

pub record HasAdded (n i : ℕ) (m : Map) (addr : Text) (m' : Map) : Type 0 where
  pub config : m'.config ≡ m.config
  pub replicas : m'.node_replicas ≡ m.node_replicas
  pub counts :
      (x : ℕ) → count x m'.keys ≡ count x m.keys + count x (points m.config.hash_func addr n i)
  pub owners :
      (k : ℕ)
      → lookup k m'.hash_map ≡ (
          if ltb 0 (count k (points m.config.hash_func addr n i))
          then some addr
          else lookup k m.hash_map)

pub add_points-HasAdded :
    (n i : ℕ) (m : Map) (addr : Text) → HasAdded n i m addr (add_points n i m addr)
unfolding add_points points count
add_points-HasAdded zero i m addr = record {
  config = refl;
  replicas = refl;
  counts = λ x. omega arith;
  owners = λ k. refl;
}
add_points-HasAdded (suc n) i m addr =
    let hash = m.config.hash_func (virtual_name addr i) in
    let rest = add_points-HasAdded n (i + 1) _ addr in
    record {
      config = rest.config;
      replicas = rest.replicas;
      counts = λ x. omega (arith, rest.counts x, count-append x m.keys (hash ∷ []));
      owners = λ k.
          rest.owners k
          ∙ overwritten k hash _ (some addr) _ _ (lookup-insert hash k addr m.hash_map);
    }

pub record HasRemoved (n i : ℕ) (m : Map) (addr : Text) : Type 0 where
  pub after : Map
  pub ran : remove_points n i m addr ≡ ok after
  pub still : Sorted after.keys
  pub config : after.config ≡ m.config
  pub replicas : after.node_replicas ≡ m.node_replicas
  pub loads : after.node_counts ≡ m.node_counts
  pub counts :
      (x : ℕ) → count x after.keys ≡ count x m.keys - count x (points m.config.hash_func addr n i)
  pub owners :
      (k : ℕ)
      → lookup k after.hash_map ≡ (
          if ltb 0 (count k (points m.config.hash_func addr n i))
          then none
          else lookup k m.hash_map)

pub remove_points-HasRemoved :
    (n i : ℕ) (m : Map) (addr : Text) → Sorted m.keys → HasRemoved n i m addr
unfolding remove_points points count
remove_points-HasRemoved zero i m addr s = record {
  after = m;
  ran = refl;
  still = s;
  config = refl;
  replicas = refl;
  loads = refl;
  counts = λ x. omega arith;
  owners = λ k. refl;
}
remove_points-HasRemoved (suc n) i m addr s =
    let hash = m.config.hash_func (virtual_name addr i) in
    let step = slice_remove-Removed m.keys hash s in
    let m₁ : Map = record m { keys = step.rest; hash_map = delete hash m.hash_map } in
    let rest = remove_points-HasRemoved n (i + 1) m₁ addr step.still in
    record {
      after = rest.after;
      ran = rw step.ran rest.ran;
      still = rest.still;
      config = rest.config;
      replicas = rest.replicas;
      loads = rest.loads;
      counts = λ x. omega (arith, rest.counts x, step.counts x);
      owners = λ k. rest.owners k ∙ overwritten k hash _ none _ _ (lookup-delete hash k m.hash_map);
    }

-- `Add` keeps the points sorted.
pub add-Sorted : (m : Map) (addr : Text) → Sorted m.keys → Sorted (Map.add m addr).keys
unfolding Map.add Map.add_node
add-Sorted m addr s = elim (Bool-cases (is_present (lookup addr m.node_replicas))) [
  | inl there ↦ rw (there, Map.add) s
  | inr new ↦ rw (new, Map.add) (sort_ints-Sorted _)
]

-- The points of an address that has a number of replicas.
abbrev pub points_of : Map → Text → ℤ → List ℕ
points_of m addr n = points m.config.hash_func addr (pos_part n) 0

pub record IsRemoved (m : Map) (addr : Text) (m' : Map) : Type 0 where
  pub still : Sorted m'.keys
  pub config : m'.config ≡ m.config
  pub counts :
      (x : ℕ)
      → count x m'.keys
        ≡ count x m.keys - count x (points_of m addr (or_zero (lookup addr m.node_replicas)))
  pub owners :
      (k : ℕ)
      → lookup k m'.hash_map ≡ (
          if ltb 0 (count k (points_of m addr (or_zero (lookup addr m.node_replicas))))
          then none
          else lookup k m.hash_map)
  pub replicas :
      (q : Text)
      → lookup q m'.node_replicas ≡ (if addr =? q then none else lookup q m.node_replicas)
  pub loads :
      (q : Text) → lookup q m'.node_counts ≡ (if addr =? q then none else lookup q m.node_counts)

pub remove_no_lock-IsRemoved :
    (m : Map) (addr : Text)
    → Sorted m.keys
    → (m' : Map) × (Map.remove_no_lock m addr ≡ ok m') × IsRemoved m addr m'
unfolding Map.remove_no_lock
remove_no_lock-IsRemoved m addr s =
    let r =
      remove_points-HasRemoved (pos_part (or_zero (lookup addr m.node_replicas))) 0 m addr s in
    (
      record r.after {
        node_replicas = delete addr r.after.node_replicas;
        node_counts = delete addr r.after.node_counts;
      },
      rw r.ran refl,
      record {
        still = r.still;
        config = r.config;
        counts = r.counts;
        owners = r.owners;
        replicas = λ q. lookup-delete addr q r.after.node_replicas ∙ rw r.replicas refl;
        loads = λ q. lookup-delete addr q r.after.node_counts ∙ rw r.loads refl;
      },
    )

-- On a ring whose points are sorted, `Remove` of a node of the ring does not panic. One occurrence
-- of each of its points goes, no owner of such a point is left, and the node's replicas and load
-- are gone; the rest stays, and the points stay sorted.
pub remove-IsRemoved :
    (m : Map) (addr : Text)
    → Sorted m.keys
    → is_present (lookup addr m.node_replicas) ≡ true
    → (m' : Map) × (Map.remove m addr ≡ ok m') × IsRemoved m addr m'
unfolding Map.remove
remove-IsRemoved m addr s there = rw (there, Map.remove) (remove_no_lock-IsRemoved m addr s)

pub record IsAdded (m : Map) (addr : Text) (n : ℤ) (m' : Map) : Type 0 where
  pub still : Sorted m'.keys
  pub config : m'.config ≡ m.config
  pub counts : (x : ℕ) → count x m'.keys ≡ count x m.keys + count x (points_of m addr n)
  pub owners :
      (k : ℕ)
      → lookup k m'.hash_map
        ≡ (if ltb 0 (count k (points_of m addr n)) then some addr else lookup k m.hash_map)
  pub replicas :
      (q : Text)
      → lookup q m'.node_replicas ≡ (if addr =? q then some n else lookup q m.node_replicas)

pub add_node-IsAdded : (m : Map) (addr : Text) (n : ℤ) → IsAdded m addr n (Map.add_node m addr n)
unfolding Map.add_node
add_node-IsAdded m addr n =
    let a = add_points-HasAdded (pos_part n) 0 m addr in
    record {
      still = sort_ints-Sorted _;
      config = a.config;
      counts = λ x. count-sort_ints x _ ∙ a.counts x;
      owners = a.owners;
      replicas = λ q. lookup-insert addr q n _ ∙ rw a.replicas refl;
    }
