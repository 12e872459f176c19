-- ===== src/ConHash/Rebalance.antt =====
-- `checkAndRebalance` of internal/consistenthash/con_hash.go.
use cache_learning_notes.Base.{
  ◌≡◌, ◌≢◌, ◌⊎◌, refl, ap, ◌∙◌, subst, inl, inr, List, [], ◌∷◌, some, Bool, true, false, Text,
  text_eq, ◌=?◌, arith, length, ==_ne, Bool-cases, Option-cases, some_eq, ok,
}
use cache_learning_notes.Base.Dict.{lookup}
use cache_learning_notes.Base.Int.{ℤ, pos, ◌+ℤ◌, ◌-ℤ◌, wrap64, leb_ℤ, ltb_ℤ}
use cache_learning_notes.ConHash.Lookup.{Sorted}
use cache_learning_notes.ConHash.Map
use cache_learning_notes.ConHash.Map.{Map, Config, clamp, new_replicas, rebalance_each, or_zero}
use cache_learning_notes.ConHash.Members.{remove_no_lock-IsRemoved, add_node-IsAdded}

-- A number of replicas that the configuration allows.
abbrev pub InRange : Config → ℤ → Type 0
InRange c n = (leb_ℤ c.min_replicas n ≡ true) × (leb_ℤ n c.max_replicas ≡ true)

leb_ℤ_refl : (a : ℤ) → leb_ℤ a a ≡ true
leb_ℤ_refl a = ground arith

not_below : (a b : ℤ) → ltb_ℤ a b ≡ false → leb_ℤ b a ≡ true
not_below a b h = ground arith

clamp-InRange :
    (c : Config) (n : ℤ) → leb_ℤ c.min_replicas c.max_replicas ≡ true → InRange c (clamp c n)
unfolding clamp
clamp-InRange c n h = elim (Bool-cases (ltb_ℤ c.max_replicas n)) [
  | inl high ↦ elim (Bool-cases (ltb_ℤ c.max_replicas c.min_replicas)) [
    | inl low ↦ rw (high, low) (leb_ℤ_refl c.min_replicas, h)
    | inr fits ↦ rw (high, fits) (h, leb_ℤ_refl c.max_replicas)
  ]
  | inr small ↦ elim (Bool-cases (ltb_ℤ n c.min_replicas)) [
    | inl low ↦ rw (small, low) (leb_ℤ_refl c.min_replicas, h)
    | inr fits ↦
        rw (small, fits) (not_below n c.min_replicas fits, not_below c.max_replicas n small)
  ]
]

new_replicas-InRange :
    (c : Config) (avg val replicas n : ℤ)
    → leb_ℤ c.min_replicas c.max_replicas ≡ true
    → new_replicas c avg val replicas ≡ some n
    → InRange c n
unfolding new_replicas
new_replicas-InRange c avg val replicas n h is = elim (Bool-cases (c.is_over val avg)) [
  | inl over ↦
      subst (InRange c) (some_eq (rw over at is)) (clamp-InRange c (wrap64 (replicas -ℤ pos 10)) h)
  | inr other ↦ elim (Bool-cases (c.is_under val avg)) [
    | inl under ↦
        subst (InRange c) (some_eq (rw (other, under) at is))
          (clamp-InRange c (wrap64 (replicas +ℤ pos 10)) h)
    | inr neither ↦ cc (rw (other, neither) at is)
  ]
]

-- What a rebalancing leaves.
pub record IsRebalanced (m m' : Map) : Type 0 where
  pub still : Sorted m'.keys
  pub config : m'.config ≡ m.config
  pub replicas :
      (q : Text)
      → (lookup q m'.node_replicas ≡ lookup q m.node_replicas)
        ⊎ ((n : ℤ) × (lookup q m'.node_replicas ≡ some n) × InRange m.config n)

trans_lem : (m m₁ m' : Map) → IsRebalanced m m₁ → IsRebalanced m₁ m' → IsRebalanced m m'
trans_lem m m₁ m' r s = record {
  still = s.still;
  config = s.config ∙ r.config;
  replicas = λ q. elim (s.replicas q) [
    | inr (n, there, fits) ↦ inr (n, there, subst (λ c. InRange c n) r.config fits)
    | inl same ↦ elim (r.replicas q) [
      | inl same' ↦ inl (same ∙ same')
      | inr (n, there, fits) ↦ inr (n, same ∙ there, fits)
    ]
  ];
}

rebalance_replicas-IsRebalanced :
    (m : Map) (addr : Text) (n : ℤ)
    → Sorted m.keys
    → InRange m.config n
    → (m' : Map) × (Map.rebalance_replicas m addr n ≡ ok m') × IsRebalanced m m'
unfolding Map.rebalance_replicas
rebalance_replicas-IsRebalanced m addr n s fits =
    let (m₁, ran, r) = remove_no_lock-IsRemoved m addr s in
    let a = add_node-IsAdded m₁ addr n in
    (
      Map.add_node m₁ addr n,
      rw ran refl,
      record {
        still = a.still;
        config = a.config ∙ r.config;
        replicas = λ q. elim (Bool-cases (addr =? q)) [
          | inl same ↦ inr (n, a.replicas q ∙ rw same refl, fits)
          | inr apart ↦ inl (a.replicas q ∙ rw apart (r.replicas q ∙ rw apart refl))
        ];
      },
    )

-- Either the flag is set, or it is as before and nothing has changed.
abbrev IsTold : Bool → Bool → Map → Map → Type 0
IsTold before told m m' = (told ≡ true) ⊎ ((told ≡ before) × (m' ≡ m))

IsTold-true : (told : Bool) (m m' : Map) → IsTold true told m m' → told ≡ true
IsTold-true told m m' (inl h) = h
IsTold-true told m m' (inr (h, _)) = h

rebalance_each_lem :
    (order : List Text) (avg : ℤ) (m : Map) (before : Bool)
    → Sorted m.keys
    → leb_ℤ m.config.min_replicas m.config.max_replicas ≡ true
    → (m' : Map) × (told : Bool) × (rebalance_each order avg m before ≡ ok (m', told))
      × IsRebalanced m m'
      × IsTold before told m m'
unfolding rebalance_each
rebalance_each_lem [] avg m before s range = (
  m,
  before,
  refl,
  record { still = s; config = refl; replicas = λ q. inl refl },
  inr (refl, refl),
)
rebalance_each_lem (addr ∷ order) avg m before s range =
    elim (Option-cases (
      new_replicas m.config avg (or_zero (lookup addr m.node_counts))
        (or_zero (lookup addr m.node_replicas)))) [
          | inl unchanged ↦
              let (m', told, ran, r, h) = rebalance_each_lem order avg m before s range in
              (m', told, rw (unchanged, rebalance_each) ran, r, h)
          | inr (n, changed) ↦
              let fits = new_replicas-InRange m.config avg _ _ n range changed in
              let (m₁, ran, r) = rebalance_replicas-IsRebalanced m addr n s fits in
              let (m', told, ran', r', h) = rebalance_each_lem order avg m₁ true r.still (
                ap (λ c. leb_ℤ (Config.min_replicas c) (Config.max_replicas c)) r.config ∙ range) in
              (
                m',
                told,
                rw (changed, rebalance_each, ran) ran',
                trans_lem m m₁ m' r r',
                inl (IsTold-true told m₁ m' h),
              )
        ]

abbrev average : Map → ℤ
average m = Map.quotient (Map.total m.node_counts) (length m.node_counts)

-- `checkAndRebalance` says so when it changes a number of replicas.
pub check_and_rebalance-told :
    (order : List Text) (m : Map)
    → Sorted m.keys
    → length m.node_counts ≢ 0
    → leb_ℤ m.config.min_replicas m.config.max_replicas ≡ true
    → (m' : Map) × (told : Bool) × (Map.check_and_rebalance order m ≡ ok (m', told))
      × IsRebalanced m m'
      × ((told ≡ true) ⊎ ((told ≡ false) × (m' ≡ m)))
unfolding Map.check_and_rebalance
check_and_rebalance-told order m s known range =
    rw (==_ne (length m.node_counts) 0 known, Map.check_and_rebalance)
      (elim (Bool-cases (Map.is_zero (average m))) [
        | inl idle ↦
            rw (idle, Map.check_and_rebalance)
              (
                m,
                false,
                refl,
                record { still = s; config = refl; replicas = λ q. inl refl },
                inr (refl, refl),
              )
        | inr busy ↦
            rw (busy, Map.check_and_rebalance)
              (rebalance_each_lem order (average m) m false s range)
      ])

-- When the loads of some nodes are known, the points sorted and the least number of replicas at most
-- the greatest, `checkAndRebalance` does not panic, for every order in which the nodes are visited.
-- The points stay sorted, and each node has the number of replicas from before or one in range.
pub check_and_rebalance-IsRebalanced :
    (order : List Text) (m : Map)
    → Sorted m.keys
    → length m.node_counts ≢ 0
    → leb_ℤ m.config.min_replicas m.config.max_replicas ≡ true
    → (m' : Map) × (told : Bool) × (Map.check_and_rebalance order m ≡ ok (m', told))
      × IsRebalanced m m'
check_and_rebalance-IsRebalanced order m s known range =
    let (m', told, ran, r, _) = check_and_rebalance-told order m s known range in (m', told, ran, r)
