-- ===== src/Peer/Clients.antt =====
-- The ring and the clients of a picker of internal/server/peer.go belong together: every node that
-- the ring can route to has a client, or is the node itself.
use cache_learning_notes.Base.{
  ℕ, ◌<◌, ◌≡◌, subst, ap, ◌∙◌, List, Option, none, some, true, false, Text, text_eq, nat_eq, ◌=?◌,
  =?_refl, =?_eq, arith, count, ltb, inl, inr, Bool-cases,
}
use cache_learning_notes.Base.Dict.{lookup}
use cache_learning_notes.Base.Int.{ℤ, pos_part}
use cache_learning_notes.ConHash.Map.{Map, Config, or_zero}
use cache_learning_notes.ConHash.Members.{points, points_of, IsAdded, IsRemoved}

-- The points of a node by the number of replicas that the ring has for it.
abbrev pub own_points : Map → Text → List ℕ
own_points m a = points_of m a (or_zero (lookup a m.node_replicas))

-- The owner of a point is a node that has this point.
abbrev pub Claimed : Map → Type 0
Claimed m = (k : ℕ) (a : Text) → lookup k m.hash_map ≡ some a → 0 < count k (own_points m a)

own_points_eq :
    (m m' : Map) (a : Text)
    → m'.config ≡ m.config
    → lookup a m'.node_replicas ≡ lookup a m.node_replicas
    → own_points m' a ≡ own_points m a
own_points_eq m m' a c r =
    ap (λ (o : Option ℤ). points_of m' a (or_zero o)) r
    ∙ ap (λ (x : Config). points x.hash_func a (pos_part (or_zero (lookup a m.node_replicas))) 0) c

own_points_at :
    (m m' : Map) (a : Text) (n : ℤ)
    → m'.config ≡ m.config
    → lookup a m'.node_replicas ≡ some n
    → own_points m' a ≡ points_of m a n
unfolding or_zero
own_points_at m m' a n c r =
    ap (λ (o : Option ℤ). points_of m' a (or_zero o)) r
    ∙ ap (λ (x : Config). points x.hash_func a (pos_part n) 0) c

-- Without replicas a node has no points.
pub unclaimed :
    (m : Map) (a : Text) (k : ℕ) → lookup a m.node_replicas ≡ none → count k (own_points m a) ≡ 0
unfolding or_zero points count
unclaimed m a k h = ap (λ (o : Option ℤ). count k (points_of m a (or_zero o))) h

pub owner_apart :
    (m : Map) (addr : Text) (k : ℕ) (a : Text)
    → Claimed m
    → lookup addr m.node_replicas ≡ none
    → lookup k m.hash_map ≡ some a
    → (addr =? a) ≡ false
owner_apart m addr k a claimed h e = elim (Bool-cases (addr =? a)) [
  | inl p ↦
      let same : addr ≡ a = =?_eq addr a p in
      absurd (
        omega (
          arith,
          claimed k a e,
          unclaimed m addr k h,
          ap (λ (x : Text). count k (own_points m x)) same,
        ))
  | inr p ↦ p
]

module _ (m m' : Map) (addr : Text) (n : ℤ) (added : IsAdded m addr n m') where
  new_claim :
      (k : ℕ) → ltb 0 (count k (points_of m addr n)) ≡ true → 0 < count k (own_points m' addr)
  new_claim k h =
      let is = own_points_at m m' addr n added.config (added.replicas addr ∙ rw (=?_refl addr)) in
      let same = ap (count k) is in ground (arith, same)

  old_claim :
      (k : ℕ) (a : Text)
      → (addr =? a) ≡ false
      → 0 < count k (own_points m a)
      → 0 < count k (own_points m' a)
  old_claim k a apart h =
      let is = own_points_eq m m' a added.config (added.replicas a ∙ rw apart) in
      let same = ap (count k) is in ground (arith, same)

  pub added-Claimed : lookup addr m.node_replicas ≡ none → Claimed m → Claimed m'
  added-Claimed new claimed k a h = elim (Bool-cases (ltb 0 (count k (points_of m addr n)))) [
    | inl p ↦
        let same : addr ≡ a = ground (arith, added.owners k) in
        subst (λ (x : Text). 0 < count k (own_points m' x)) same (new_claim k p)
    | inr p ↦
        let old : lookup k m.hash_map ≡ some a = ground (arith, added.owners k) in
        old_claim k a (owner_apart m addr k a claimed new old) (claimed k a old)
  ]

module _ (m m' : Map) (addr : Text) (removed : IsRemoved m addr m') where
  -- What owns a point after a removal owned it before, and is another node.
  pub kept_owner :
      (k : ℕ) (a : Text)
      → Claimed m
      → lookup k m'.hash_map ≡ some a
      → (lookup k m.hash_map ≡ some a) × ((addr =? a) ≡ false)
  kept_owner k a claimed h = elim (Bool-cases (ltb 0 (count k (own_points m addr)))) [
    | inl p ↦ absurd (ground (arith, removed.owners k))
    | inr p ↦
        let old : lookup k m.hash_map ≡ some a = ground (arith, removed.owners k) in
        let c = claimed k a old in
        elim (Bool-cases (addr =? a)) [
          | inl e ↦
              let same : addr ≡ a = =?_eq addr a e in
              let count_eq = ap (λ (x : Text). count k (own_points m x)) same in
              absurd (ground (arith, count_eq))
          | inr e ↦ (old, e)
        ]
  ]

  pub removed-Claimed : Claimed m → Claimed m'
  removed-Claimed claimed k a h =
      let (old, apart) = kept_owner k a claimed h in
      let is = own_points_eq m m' a removed.config (removed.replicas a ∙ rw apart) in
      let same = ap (count k) is in let c = claimed k a old in omega arith
