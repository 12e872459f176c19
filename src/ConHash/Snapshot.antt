-- ===== src/ConHash/Snapshot.antt =====
-- The snapshots of the ring that the leader publishes through etcd, in `syncHashRing`, `updateHashRing`
-- and the periodic task of internal/consistenthash/con_hash.go, and what Go's encoding/json does to the
-- strings that it writes.
use cache_learning_notes.Base.{
  ℕ, zero, suc, List, [], ◌∷◌, Option, none, some, Bool, true, false, ◌&&◌, Text, Exec, ok, ◌>>=◌,
  ◌==◌, ltb, leb, if◌then◌else◌,
}
use cache_learning_notes.ConHash.Map.{Map, check_and_rebalance}

pub record HashRing : Type 0 where
  pub keys : List ℕ
  pub hash_map : List (ℕ × Text)

-- `lo <= x && x <= hi`
unfoldable pub between : ℕ → ℕ → ℕ → Bool
between lo hi x = leb lo x && leb x hi

-- What the first byte of a UTF-8 sequence says: the number of bytes that follow, and the range of the
-- first of them.
unfoldable pub lead : ℕ → Option (ℕ × ℕ × ℕ)
unfolding between
lead x =
    if ltb x 128
    then some (0, 0, 0)
    else if between 194 223 x
    then some (1, 128, 191)
    else if x == 224
    then some (2, 160, 191)
    else if x == 237
    then some (2, 128, 159)
    else if between 225 239 x
    then some (2, 128, 191)
    else if x == 240
    then some (3, 144, 191)
    else if between 241 243 x
    then some (3, 128, 191)
    else if x == 244
    then some (3, 128, 143)
    else none

-- Whether that many bytes follow that go on with a sequence.
unfoldable pub goes_on : ℕ → Text → Bool
unfolding between
goes_on zero xs = true
goes_on (suc n) [] = false
goes_on (suc n) (x ∷ xs) = between 128 191 x && goes_on n xs

-- The bytes that follow the first one in its sequence, if it is valid.
unfoldable pub following_bytes : Option (ℕ × ℕ × ℕ) → Text → Option ℕ
unfolding between goes_on
following_bytes none xs = none
following_bytes (some (zero, lo, hi)) xs = some 0
following_bytes (some (suc n, lo, hi)) [] = none
following_bytes (some (suc n, lo, hi)) (x ∷ xs) =
    if between lo hi x && goes_on n xs then some (suc n) else none

-- A text that JSON carries: `Marshal` writes the replacement character in place of each byte that
-- stands in no valid sequence, and `Unmarshal` reads the rest as it was. The first `skip` bytes belong
-- to a sequence that is valid.
unfoldable pub carried_from : ℕ → Text → Text
unfolding following_bytes lead
carried_from skip [] = []
carried_from (suc skip) (x ∷ xs) = x ∷ carried_from skip xs
carried_from zero (x ∷ xs) = elim (following_bytes (lead x) xs) [
  | none ↦ 239 ∷ 191 ∷ 189 ∷ carried_from zero xs
  | some n ↦ x ∷ carried_from n xs
]

unfoldable pub carried : Text → Text
unfolding carried_from
carried s = carried_from 0 s

unfoldable pub carry_owners : List (ℕ × Text) → List (ℕ × Text)
unfolding carried
carry_owners [] = []
carry_owners ((k, owner) ∷ owners) = (k, carried owner) ∷ carry_owners owners

-- The snapshot that `syncHashRing` writes, as it is decoded from the text that `Marshal` makes of it.
unfoldable pub sync_hash_ring : Map → HashRing
unfolding carry_owners
sync_hash_ring m = record { keys = m.keys; hash_map = carry_owners m.hash_map }

-- What `updateHashRing` does with an event: `none` is a text that it cannot decode.
unfoldable pub update_hash_ring : Map → Option HashRing → Map
update_hash_ring m none = m
update_hash_ring m (some ring) = record m { keys = ring.keys; hash_map = ring.hash_map }

-- A tick of the leader's periodic task: the ring, and the snapshot that it publishes.
unfoldable pub leader_tick : List Text → Map → Exec (Map × Option HashRing)
unfolding sync_hash_ring check_and_rebalance
leader_tick order m = do
  (m', is_rebalance) ← check_and_rebalance order m
  ok (m', if is_rebalance then some (sync_hash_ring m') else none)
