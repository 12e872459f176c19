-- ===== src/Tests/Rings.antt =====
-- The ring of internal/consistenthash/con_hash.go at concrete inputs: two nodes with three points each.
use cache_learning_notes.Base.{
  Option, Exec, ◌⊎◌, false, some, ◌<◌, ◌≢◌, sym, ap, ◌∙◌, ℕ, Bool, ◌+◌, ◌*◌, [], ◌∷◌, none, true,
  Text, text_eq, text_beq, nat_eq, arith, ◌≡◌, refl, ok, at, if◌then◌else◌, length, ltb, ◌==◌,
  count,
}
use cache_learning_notes.Base.Dict.{lookup, insert, delete}
use cache_learning_notes.Base.Int.{pos, ltb_ℤ, leb_ℤ, wrap64, ◌+ℤ◌, ◌-ℤ◌}
use cache_learning_notes.ConHash.Lookup.{Sorted, routed, counted, get-successor}
use cache_learning_notes.ConHash.Map
use cache_learning_notes.ConHash.Map.{Map, Config, is_present}
use cache_learning_notes.ConHash.AddRemove.{remove-add}
use cache_learning_notes.ConHash.Members.{IsRemoved, points_of, add-Sorted, remove-IsRemoved}
use cache_learning_notes.ConHash.Owners.{Owned, add-Owned, get-Owned}
use cache_learning_notes.ConHash.Follower.{ascii, carried-ascii, leader_tick-agrees}
use cache_learning_notes.ConHash.Snapshot.{
  HashRing, leader_tick, sync_hash_ring, update_hash_ring, carry_owners, carried, carried_from,
  following_bytes, lead, goes_on, between,
}
use cache_learning_notes.ConHash.Rebalance.{IsRebalanced, check_and_rebalance-IsRebalanced}
use cache_learning_notes.ConHash.Search
use cache_learning_notes.Tests.Layers.{a, b, c}

unfoldable pub run : Unit {0}
unfolding text_beq at lookup insert delete wrap64 ◌+ℤ◌ ◌-ℤ◌ Map.new_consistent_hash
    Map.digits_before Map.virtual_name Map.or_zero Map.or_empty Map.is_present Map.add_points
    Map.add_node Map.add Map.remove_points Map.remove_no_lock Map.remove Map.get_at Map.get
    Map.rebalance_replicas Map.quotient Map.total Map.clamp Map.new_replicas Map.rebalance_each
    Map.check_and_rebalance Search.search_from Search.search Search.search_ints Search.insert_sorted
    Search.sort_ints Search.remove_at Search.remove_found Search.slice_remove
run = tt

abbrev checksum : Text → ℕ
checksum [] = 0
checksum (x ∷ xs) = x * 3 + checksum xs

abbrev pub three_each : Config
three_each = record {
  default_replicas = pos 3;
  min_replicas = pos 2;
  max_replicas = pos 6;
  hash_func = checksum;
  is_over = λ val avg. ltb_ℤ avg val;
  is_under = λ val avg. ltb_ℤ val avg;
}

abbrev two_nodes : Map
two_nodes = Map.add (Map.add (Map.new_consistent_hash three_each a) a) c

empty-Sorted : Sorted (Map.new_consistent_hash three_each a).keys
unfolding Map.new_consistent_hash
empty-Sorted = tt

two_nodes-Sorted : Sorted two_nodes.keys
two_nodes-Sorted =
    add-Sorted (Map.add (Map.new_consistent_hash three_each a) a) c
      (add-Sorted (Map.new_consistent_hash three_each a) a empty-Sorted)

points_made : two_nodes.keys ≡ 570 ∷ 573 ∷ 576 ∷ 576 ∷ 579 ∷ 582 ∷ []
unfolding run
points_made = refl

get-successor_example : Map.get two_nodes b ≡ (
    if length two_nodes.keys == 0
    then ok (two_nodes, [])
    else ok (
      counted two_nodes (routed two_nodes (two_nodes.config.hash_func b) two_nodes.keys),
      routed two_nodes (two_nodes.config.hash_func b) two_nodes.keys,
    ))
get-successor_example = get-successor two_nodes b two_nodes-Sorted

c_present : is_present (lookup c two_nodes.node_replicas) ≡ true
unfolding run
c_present = refl

remove-IsRemoved_example : (m' : Map) × (Map.remove two_nodes c ≡ ok m') × IsRemoved two_nodes c m'
remove-IsRemoved_example = remove-IsRemoved two_nodes c two_nodes-Sorted c_present

b_new : lookup b two_nodes.node_replicas ≡ none
unfolding run
b_new = refl

remove-add_example :
    (m' : Map) × (Map.remove (Map.add two_nodes b) b ≡ ok m')
    × (m'.keys ≡ two_nodes.keys)
    × ((q : Text) → lookup q m'.node_replicas ≡ lookup q two_nodes.node_replicas)
    × ((k : ℕ)
        → lookup k m'.hash_map ≡ (
            if ltb 0 (count k (points_of two_nodes b two_nodes.config.default_replicas))
            then none
            else lookup k two_nodes.hash_map))
remove-add_example = remove-add two_nodes b two_nodes-Sorted b_new

-- The loads of both nodes are known.
abbrev loaded : Map
loaded = record two_nodes { node_counts = (a, pos 9) ∷ (c, pos 3) ∷ [] }

in_order : leb_ℤ loaded.config.min_replicas loaded.config.max_replicas ≡ true
unfolding run
in_order = refl

check_and_rebalance-IsRebalanced_example :
    (m' : Map) × (told : Bool) × (Map.check_and_rebalance (c ∷ a ∷ []) loaded ≡ ok (m', told))
    × IsRebalanced loaded m'
check_and_rebalance-IsRebalanced_example =
    check_and_rebalance-IsRebalanced (c ∷ a ∷ []) loaded two_nodes-Sorted (λ h. omega (arith, h))
      in_order

none-Owned : Owned (Map.new_consistent_hash three_each a)
unfolding Map.new_consistent_hash count
none-Owned k there = absurd (omega arith)

two_nodes-Owned : Owned two_nodes
two_nodes-Owned =
    add-Owned (Map.add (Map.new_consistent_hash three_each a) a) c
      (add-Owned (Map.new_consistent_hash three_each a) a none-Owned)

add-Owned_example : Owned (Map.add two_nodes b)
add-Owned_example = add-Owned two_nodes b two_nodes-Owned

some_points : length two_nodes.keys ≢ 0
some_points h = omega (arith, sym (ap length points_made) ∙ h)

get-Owned_example :
    (m' : Map) × (owner : Text) × (k : ℕ) × (Map.get two_nodes b ≡ ok (m', owner))
    × (0 < count k two_nodes.keys)
    × (lookup k two_nodes.hash_map ≡ some owner)
get-Owned_example = get-Owned two_nodes b two_nodes-Sorted two_nodes-Owned some_points

-- A follower that has no node yet takes over what the leader publishes.
abbrev empty_follower : Map
empty_follower = Map.new_consistent_hash three_each c

same_config : empty_follower.config ≡ loaded.config
unfolding run
same_config = refl

leader_tick-agrees_example :
    (m' : Map) × (published : Option HashRing) × (leader_tick (c ∷ a ∷ []) loaded
      ≡ ok (m', published))
    × (((published ≡ none) × (m' ≡ loaded))
        ⊎ ((ring : HashRing) × (m₁ m₂ : Map) × (x : Text) × (published ≡ some ring)
            × (Map.get m' b ≡ ok (m₁, x))
            × (Map.get (update_hash_ring empty_follower published) b ≡ ok (m₂, carried x))))
leader_tick-agrees_example =
    leader_tick-agrees (c ∷ a ∷ []) loaded empty_follower b two_nodes-Sorted (λ h. omega (arith, h))
      in_order same_config

is_published : Exec (Map × Option HashRing) → Bool
is_published (ok (m, some ring)) = true
is_published _ = false

-- The tick changes both numbers of replicas.
tick_publishes : is_published (leader_tick (c ∷ a ∷ []) loaded) ≡ true
unfolding run leader_tick sync_hash_ring carry_owners is_published
tick_publishes = refl

-- The first two bytes of a sequence of three, and then one of two.
carried_bytes :
    carried (b'a' ∷ 226 ∷ 130 ∷ 195 ∷ 169 ∷ [])
    ≡ b'a' ∷ 239 ∷ 191 ∷ 189 ∷ 239 ∷ 191 ∷ 189 ∷ 195 ∷ 169 ∷ []
unfolding carried carried_from following_bytes lead goes_on between
carried_bytes = refl

plain_address : ascii c ≡ true
unfolding ascii
plain_address = refl

kept_address : carried c ≡ c
kept_address = carried-ascii c plain_address
