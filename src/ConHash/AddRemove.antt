-- ===== src/ConHash/AddRemove.antt =====
-- `Add` followed by `Remove` of internal/consistenthash/con_hash.go.
use cache_learning_notes.Base.{
  ℕ, ◌≡◌, refl, sym, ap, ◌∙◌, inl, inr, List, Option, none, some, Bool, true, false, Text, text_eq,
  nat_eq, ◌=?◌, =?_refl, =?_eq, arith, ltb, if◌then◌else◌, Bool-cases, ok, count,
}
use cache_learning_notes.Base.Dict.{lookup}
use cache_learning_notes.Base.Int.{ℤ, pos_part}
use cache_learning_notes.ConHash.Lookup.{Sorted}
use cache_learning_notes.ConHash.Map
use cache_learning_notes.ConHash.Map.{
  Map, virtual_name, add_points, remove_points, is_present, or_zero,
}
use cache_learning_notes.ConHash.Points.{equal_counts}
use cache_learning_notes.ConHash.Members.{
  points, points_of, add_node-IsAdded, remove_no_lock-IsRemoved,
}

points_lem :
    (m m₁ : Map) (addr : Text) (n : ℤ)
    → m₁.config ≡ m.config
    → lookup addr m₁.node_replicas ≡ some n
    → points_of m₁ addr (or_zero (lookup addr m₁.node_replicas)) ≡ points_of m addr n
unfolding or_zero
points_lem m m₁ addr n same there =
    ap (λ o. points_of m₁ addr (or_zero o)) there
    ∙ ap (λ c. points (Map.Config.hash_func c) addr (pos_part n) 0) same

-- What is there after an insertion and a deletion of a key that was not.
given_back :
    (addr q : Text) (n : ℤ) (m : List (Text × ℤ)) (written : Option ℤ)
    → lookup addr m ≡ none
    → written ≡ (if addr =? q then some n else lookup q m)
    → (if addr =? q then none else written) ≡ lookup q m
given_back addr q n m written new h = elim (Bool-cases (addr =? q)) [
  | inl same ↦ rw same (sym new ∙ ap (λ z. lookup z m) (=?_eq addr q same))
  | inr apart ↦ rw apart (h ∙ rw apart refl)
]

masked :
    (b : Bool) (addr : Text) (now old : Option Text)
    → now ≡ (if b then some addr else old)
    → (if b then none else now) ≡ (if b then none else old)
masked true addr now old h = refl
masked false addr now old h = h

-- Adding a new node to sorted points and removing it does not panic. The points and the replicas of
-- every node are those from before, and so is the owner of every point that is none of the node's;
-- a point of the node has no owner, also if another node shares it.
pub remove-add :
    (m : Map) (addr : Text)
    → Sorted m.keys
    → lookup addr m.node_replicas ≡ none
    → (m' : Map) × (Map.remove (Map.add m addr) addr ≡ ok m')
      × (m'.keys ≡ m.keys)
      × ((q : Text) → lookup q m'.node_replicas ≡ lookup q m.node_replicas)
      × ((k : ℕ)
          → lookup k m'.hash_map ≡ (
              if ltb 0 (count k (points_of m addr m.config.default_replicas))
              then none
              else lookup k m.hash_map))
unfolding Map.add Map.add_node Map.remove
remove-add m addr s new =
    let n = m.config.default_replicas in
    let m₁ = Map.add_node m addr n in
    let a = add_node-IsAdded m addr n in
    let there : lookup addr m₁.node_replicas ≡ some n = a.replicas addr ∙ rw (=?_refl addr) refl in
    let (m', ran, r) = remove_no_lock-IsRemoved m₁ addr a.still in
    let same = points_lem m m₁ addr n a.config there in
    (
      m',
      rw (new, Map.add, there, Map.remove) ran,
      equal_counts m'.keys m.keys r.still s
          (λ x. omega (arith, r.counts x, a.counts x, ap (count x) same)),
      λ q. r.replicas q ∙ given_back addr q n m.node_replicas _ new (a.replicas q),
      λ k.
          r.owners k
          ∙ (ap (λ ps. if ltb 0 (count k ps) then none else lookup k m₁.hash_map) same
              ∙ masked (ltb 0 (count k (points_of m addr n))) addr _ _ (a.owners k)),
    )
