-- ===== src/ConHash/Follower.antt =====
-- What a follower of the leader in internal/consistenthash/con_hash.go makes of the snapshots.
use cache_learning_notes.Base.{
  ℕ, ◌≡◌, ◌≢◌, ◌⊎◌, inl, inr, refl, ap, sym, ◌&&◌, ltb, ◌∙◌, List, [], ◌∷◌, Option, none, some,
  Bool, true, Text, text_eq, nat_eq, ◌=?◌, arith, Exec, ok, if◌then◌else◌, length, ◌==◌, Bool-cases,
}
use cache_learning_notes.Base.Dict.{lookup}
use cache_learning_notes.Base.Int.{leb_ℤ}
use cache_learning_notes.ConHash.Lookup.{Sorted, successor, routed}
use cache_learning_notes.ConHash.Dest.{dest, ring_get}
use cache_learning_notes.ConHash.Map
use cache_learning_notes.ConHash.Map.{Map, Config, or_empty}
use cache_learning_notes.ConHash.Rebalance.{check_and_rebalance-told}
use cache_learning_notes.ConHash.Snapshot.{
  HashRing, carried, carried_from, carry_owners, lead, following_bytes, sync_hash_ring,
  update_hash_ring, leader_tick,
}

-- A point without an owner stays without, and the address of another is carried.
carry_owners-lookup :
    (k : ℕ) (owners : List (ℕ × Text))
    → or_empty (lookup k (carry_owners owners)) ≡ carried (or_empty (lookup k owners))
unfolding carry_owners lookup or_empty carried carried_from
carry_owners-lookup k [] = refl
carry_owners-lookup k ((j, owner) ∷ owners) = elim (Bool-cases (j =? k)) [
  | inl h ↦ rw h
  | inr h ↦ rw h (carry_owners-lookup k owners)
]

routed-carried :
    (leader follower : Map) (hash : ℕ) (ks : List ℕ)
    → routed (update_hash_ring follower (some (sync_hash_ring leader))) hash ks
      ≡ carried (routed leader hash ks)
unfolding update_hash_ring sync_hash_ring carried carried_from
routed-carried leader follower hash [] = refl
routed-carried leader follower hash (k ∷ ks) =
    carry_owners-lookup (successor hash (k ∷ ks) k) leader.hash_map

-- A follower that has taken over a snapshot.
snapshot_lem :
    (leader follower : Map) (key : Text)
    → Sorted leader.keys
    → follower.config ≡ leader.config
    → (m₁ m₂ : Map) × (a : Text) × (Map.get leader key ≡ ok (m₁, a))
      × (Map.get (update_hash_ring follower (some (sync_hash_ring leader))) key
          ≡ ok (m₂, carried a))
unfolding update_hash_ring sync_hash_ring carried carried_from
snapshot_lem leader follower key s same =
    let f : Map = update_hash_ring follower (some (sync_hash_ring leader)) in
    let (n₁, ran₁) = ring_get leader key s in
    let (n₂, ran₂) = ring_get f key s in
    let m₂ : Map = record f { self_load = n₂ } in
    let agree : dest f key ≡ carried (dest leader key) =
      ap
        (λ (c : Config).
          if length leader.keys == 0 then [] else routed f (c.hash_func key) leader.keys)
        same
      ∙ elim (Bool-cases (length leader.keys == 0)) [
        | inl h ↦ rw h refl
        | inr h ↦ rw h (routed-carried leader follower (leader.config.hash_func key) leader.keys)
      ] in
    (_, m₂, dest leader key, ran₁, ran₂ ∙ ap {B = Exec (Map × Text)} (λ a. ok (m₂, a)) agree)

-- After a tick of the leader's periodic task, with the loads of some nodes known, the points sorted and
-- the least number of replicas at most the greatest: the task does not panic, whatever the order of the
-- nodes. Either it publishes nothing and the ring is as before; or it publishes a snapshot, and a
-- follower with the configuration of the leader that takes it over answers `Get` for the key with the
-- address that the leader answers with, as far as JSON carries it, and neither panics.
pub leader_tick-agrees :
    (order : List Text) (m follower : Map) (key : Text)
    → Sorted m.keys
    → length m.node_counts ≢ 0
    → leb_ℤ m.config.min_replicas m.config.max_replicas ≡ true
    → follower.config ≡ m.config
    → (m' : Map) × (published : Option HashRing) × (leader_tick order m ≡ ok (m', published))
      × (((published ≡ none) × (m' ≡ m))
          ⊎ ((ring : HashRing) × (m₁ m₂ : Map) × (a : Text) × (published ≡ some ring)
              × (Map.get m' key ≡ ok (m₁, a))
              × (Map.get (update_hash_ring follower published) key ≡ ok (m₂, carried a))))
unfolding leader_tick
leader_tick-agrees order m follower key s known range same =
    let (m', told, ran, r, h) = check_and_rebalance-told order m s known range in
    elim h [
      | inl e ↦
          let (m₁, m₂, a, got, got') = snapshot_lem m' follower key r.still (same ∙ sym r.config) in
          (
            m',
            some (sync_hash_ring m'),
            rw (ran, e),
            inr (sync_hash_ring m', m₁, m₂, a, refl, got, got'),
          )
      | inr (e, kept) ↦ (m', none, rw (ran, e), inl (refl, kept))
    ]

unfoldable pub ascii : Text → Bool
ascii [] = true
ascii (x ∷ xs) = ltb x 128 && ascii xs

lead_ascii : (x : ℕ) → ltb x 128 ≡ true → lead x ≡ some (0, 0, 0)
unfolding lead
lead_ascii x h = rw h

-- ASCII text is carried as it is.
pub carried-ascii : (s : Text) → ascii s ≡ true → carried s ≡ s
unfolding carried carried_from following_bytes ascii
carried-ascii [] h = refl
carried-ascii (x ∷ xs) h =
    let first : ltb x 128 ≡ true = ground (arith, h) in
    let others : ascii xs ≡ true = ground (arith, h) in
    rw (carried, carried_from, lead_ascii x first)
      (ap (λ (s : Text). x ∷ s) (carried-ascii xs others))
