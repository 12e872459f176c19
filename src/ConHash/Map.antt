-- ===== src/ConHash/Map.antt =====
-- The type `Map` of internal/consistenthash/con_hash.go and its methods on the ring, and `Config` of internal/consistenthash/config.go. A method that the mutex guards is one step. The
-- hash function and the two comparisons of a load with the average, which are on float64, are
-- fields of the configuration; what the etcd client reads is an argument.
use cache_learning_notes.Base.{
  ℕ, zero, suc, ◌+◌, ◌/◌, ◌%◌, List, [], ◌∷◌, ◌++◌, Option, none, some, Bool, true, false, Text,
  text_eq, nat_eq, ◌=?◌, Exec, ok, panic, ◌>>=◌, at, length, ltb, ◌==◌, if◌then◌else◌,
}
use cache_learning_notes.Base.Dict.{lookup, insert, delete}
use cache_learning_notes.Base.Int.{ℤ, pos, negsuc, ◌+ℤ◌, ◌-ℤ◌, wrap64, ltb_ℤ, pos_part, neg_part}
use cache_learning_notes.ConHash.Search.{search, at_least, sort_ints, slice_remove}

-- `is_over` and `is_under` stand for the comparison of `float64(val)/float64(avg)` with the upper
-- and the lower threshold.
pub record Config : Type 0 where
  pub default_replicas : ℤ
  pub min_replicas : ℤ
  pub max_replicas : ℤ
  pub hash_func : Text → ℕ
  pub is_over : ℤ → ℤ → Bool
  pub is_under : ℤ → ℤ → Bool

-- `DefaultConfig`, with the hash function and the comparisons with 1.1 and 0.9 as arguments.
unfoldable pub default_config : (Text → ℕ) → (ℤ → ℤ → Bool) → (ℤ → ℤ → Bool) → Config
default_config hash_func is_over is_under = record {
  default_replicas = pos 50;
  min_replicas = pos 10;
  max_replicas = pos 200;
  hash_func = hash_func;
  is_over = is_over;
  is_under = is_under;
}

pub record Map : Type 0 where
  pub config : Config
  pub keys : List ℕ
  pub hash_map : List (ℕ × Text)
  pub node_replicas : List (Text × ℤ)
  pub self_load : ℤ
  pub node_counts : List (Text × ℤ)
  pub self_addr : Text

-- The state that `NewConsistentHash` makes.
unfoldable pub new_consistent_hash : Config → Text → Map
new_consistent_hash config self_addr = record {
  config = config;
  keys = [];
  hash_map = [];
  node_replicas = [];
  self_load = pos 0;
  node_counts = [];
  self_addr = self_addr;
}

-- The decimal digits of a number below 10 ^ fuel, before those in `after`.
unfoldable pub digits_before : ℕ → ℕ → Text → Text
digits_before zero n after = after
digits_before (suc fuel) n after =
    let more = digits_before fuel (n / 10) ((b'0' + n % 10) ∷ after) in
    if ltb n 10 then (b'0' + n) ∷ after else more

-- `fmt.Sprintf("%s-%d", addr, i)`
unfoldable pub virtual_name : Text → ℕ → Text
unfolding digits_before
virtual_name addr i = addr ++ b'-' ∷ digits_before 20 i []

-- The value of a missing key.
unfoldable pub or_zero : Option ℤ → ℤ
or_zero none = pos 0
or_zero (some v) = v

unfoldable pub or_empty : Option Text → Text
or_empty none = []
or_empty (some v) = v

unfoldable pub is_present {ℓ} : {A : Type ℓ} → Option A → Bool
is_present none = false
is_present (some _) = true

abbrev pub point : Map → Text → ℕ → ℕ
point m addr i = m.config.hash_func (virtual_name addr i)

-- The loop of `addNode`, with `n` rounds to go from round `i` on.
unfoldable pub add_points : ℕ → ℕ → Map → Text → Map
add_points zero i m addr = m
add_points (suc n) i m addr =
    let hash = point m addr i in
    add_points n (i + 1)
      (record m {
        keys = m.keys ++ hash ∷ [];
        hash_map = insert hash addr m.hash_map;
        node_counts = insert addr (pos 0) m.node_counts;
      })
      addr

unfoldable pub add_node : Map → Text → ℤ → Map
unfolding add_points
add_node m addr replicas =
    let m' = add_points (pos_part replicas) 0 m addr in
    record m' { keys = sort_ints m'.keys; node_replicas = insert addr replicas m'.node_replicas }

unfoldable pub add : Map → Text → Map
unfolding is_present
add m addr =
    if is_present (lookup addr m.node_replicas)
    then m
    else add_node m addr m.config.default_replicas

-- The loop of `removeNoLock`.
unfoldable pub remove_points : ℕ → ℕ → Map → Text → Exec Map
remove_points zero i m addr = ok m
remove_points (suc n) i m addr = do
  let hash = point m addr i
  keys ← slice_remove m.keys hash
  remove_points n (i + 1) (record m { keys = keys; hash_map = delete hash m.hash_map }) addr

unfoldable pub remove_no_lock : Map → Text → Exec Map
unfolding remove_points or_zero
remove_no_lock m addr = do
  m' ← remove_points (pos_part (or_zero (lookup addr m.node_replicas))) 0 m addr
  ok (record m' {
    node_replicas = delete addr m'.node_replicas;
    node_counts = delete addr m'.node_counts;
  })

unfoldable pub remove : Map → Text → Exec Map
unfolding is_present
remove m addr = if is_present (lookup addr m.node_replicas) then remove_no_lock m addr else ok m

-- The owner of the point at an index, and the count of a load on this node.
unfoldable pub get_at : Map → ℕ → Exec (Map × Text)
unfolding or_empty
get_at m index = do
  k ← at m.keys index
  let owner = or_empty (lookup k m.hash_map)
  ok (
    if owner =? m.self_addr then record m { self_load = wrap64 (m.self_load +ℤ pos 1) } else m,
    owner,
  )

unfoldable pub get : Map → Text → Exec (Map × Text)
unfolding get_at search
get m key =
    if length m.keys == 0
    then ok (m, [])
    else (search (length m.keys) (at_least m.keys (m.config.hash_func key)) >>= λ index.
        get_at m (if index == length m.keys then 0 else index))

unfoldable pub rebalance_replicas : Map → Text → ℤ → Exec Map
rebalance_replicas m addr new_replicas = do
  m' ← remove_no_lock m addr
  ok (add_node m' addr new_replicas)

-- `a / b` on int64, towards 0.
unfoldable pub quotient : ℤ → ℕ → ℤ
quotient (pos a) b = pos (a / b)
quotient (negsuc a) b = pos 0 -ℤ pos (suc a / b)

unfoldable pub total : List (Text × ℤ) → ℤ
total [] = pos 0
total ((_, val) ∷ counts) = wrap64 (val +ℤ total counts)

abbrev pub is_zero : ℤ → Bool
is_zero a = pos_part a + neg_part a == 0

-- The two tests that keep a number of replicas in its range.
unfoldable pub clamp : Config → ℤ → ℤ
clamp c n =
    let most = if ltb_ℤ c.max_replicas n then c.max_replicas else n in
    if ltb_ℤ most c.min_replicas then c.min_replicas else most

-- The number of replicas that a node is to have, if the load says that it changes.
unfoldable pub new_replicas : Config → ℤ → ℤ → ℤ → Option ℤ
unfolding clamp
new_replicas c avg val replicas =
    if c.is_over val avg
    then some (clamp c (wrap64 (replicas -ℤ pos 10)))
    else if c.is_under val avg
    then some (clamp c (wrap64 (replicas +ℤ pos 10)))
    else none

-- The loop of `checkAndRebalance`, for the nodes in the order in which the runtime visits them.
unfoldable pub rebalance_each : List Text → ℤ → Map → Bool → Exec (Map × Bool)
unfolding new_replicas rebalance_replicas
rebalance_each [] avg m is_rebalance = ok (m, is_rebalance)
rebalance_each (addr ∷ addrs) avg m is_rebalance =
    elim (new_replicas m.config avg (or_zero (lookup addr m.node_counts))
      (or_zero (lookup addr m.node_replicas))) [
        | none ↦ rebalance_each addrs avg m is_rebalance
        | some n ↦ rebalance_replicas m addr n >>= λ m'. rebalance_each addrs avg m' true
      ]

unfoldable pub check_and_rebalance : List Text → Map → Exec (Map × Bool)
unfolding rebalance_each total quotient
check_and_rebalance order m =
    if length m.node_counts == 0
    then panic
    else (let avg = quotient (total m.node_counts) (length m.node_counts) in
        if is_zero avg then ok (m, false) else rebalance_each order avg m false)

-- `fetchAllNodeCount` and `watchNodeCount`, for the counts that were read, with `none` for one that is
-- not a number: it ends the loop.
unfoldable pub note_counts : List (Text × Option ℤ) → Map → Map × Bool
note_counts [] m = (m, true)
note_counts ((addr, none) ∷ rest) m = (m, false)
note_counts ((addr, some count) ∷ rest) m =
    note_counts rest (record m { node_counts = insert addr count m.node_counts })

-- The report of the load: the load so far, which starts again at 0.
unfoldable pub swap_load : Map → Map × ℤ
swap_load m = (record m { self_load = pos 0 }, m.self_load)
