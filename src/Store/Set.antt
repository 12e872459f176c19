-- ===== src/Store/Set.antt =====
-- `SetWithExpiration` of pkg/store/lru2.go, on a bucket.

use cache_learning_notes.Base.{
  ℕ, ◌≡◌, ◌≢◌, sym, ap, ◌∙◌, subst, inl, inr, List, [], Option, none, some, Bool, false, Text,
  text_eq, ◌=?◌, =?_eq, =?_ne, arith, if◌then◌else◌, Option-cases, Bool-cases, ok, some_eq,
}
use cache_learning_notes.Base.Int.{ℤ}
use cache_learning_notes.Layer.Cache.{Node, Value, Calls, positive}
use cache_learning_notes.Layer.Put.{put-Models}
use cache_learning_notes.Layer.Reads.{Distinct, Models-Distinct, victim}
use cache_learning_notes.Layer.Spec
use cache_learning_notes.Layer.Victim.{victim-Displaced, find-put-Displaced}
use cache_learning_notes.Store.Bucket
use cache_learning_notes.Store.Bucket.{Bucket}
use cache_learning_notes.Store.Displaced.{displaced_lem}
use cache_learning_notes.Store.Model.{
  BucketModels, if_positive, entry, valid, or_else, visible, valid-put_self, valid-put_ne,
  if_positive-some,
}

module _ {V : Type 0} where
  -- The node that a write of `key` moves from the first level to the second.
  abbrev pub spilled : ℕ → Text → List (Node V) → Option (Node V)
  spilled size₁ key s₁ = if_positive (victim size₁ key s₁)

  -- The node that falls out of the second level for it.
  abbrev pub dropped : ℕ → Option (Node V) → List (Node V) → Option (Node V)
  dropped size₂ none s₂ = none
  dropped size₂ (some x) s₂ = victim size₂ x.k s₂

  -- What a node that has gone means for the callback.
  abbrev pub drop_calls : Bool → Option (Node V) → Calls V
  drop_calls cb none = []
  drop_calls cb (some y) = Spec.evictions cb y

  put-calls :
      (size : ℕ) (key : Text) (val : Value V) (e : ℤ) (cb : Bool) (s : List (Node V))
      → Distinct s
      → (Spec.put size key val e cb s).2 ≡ drop_calls cb (victim size key s)
  unfolding Spec.put victim
  put-calls size key val e cb s d = ground arith

  module _ (cb : Bool) (b : Bucket V) (size₁ size₂ : ℕ) (s₁ s₂ : List (Node V)) (key : Text)
      (value : Value V) (e : ℤ) (model : BucketModels b size₁ size₂ s₁ s₂) where
    abbrev t₁ : List (Node V)
    t₁ = (Spec.put size₁ key value e false s₁).0

    -- The second level after the write.
    abbrev second : Option (Node V) → List (Node V)
    second none = s₂
    second (some x) = (Spec.put size₂ x.k x.v x.expire_at cb s₂).0

    set_lem :
        (b' : Bucket V) × (Bucket.set_with_expiration cb b key value e
          ≡ ok (b', drop_calls cb (dropped size₂ (spilled size₁ key s₁) s₂)))
        × BucketModels b' size₁ size₂ t₁ (second (spilled size₁ key s₁))
    unfolding Bucket.set_with_expiration
    set_lem =
        let (c₁, run₁, m₁) = put-Models b.level1 size₁ s₁ key value e false model.first in
        let before = displaced_lem b.level1 size₁ s₁ key model.first in
        elim (Option-cases (spilled size₁ key s₁)) [
          | inl still ↦ (
            record b { level1 = c₁ },
            rw (before, still, run₁),
            record { first = m₁; second = rw still model.second },
          )
          | inr (x, moves) ↦
              let (c₂, run₂, m₂) =
                put-Models b.level2 size₂ s₂ x.k x.v x.expire_at cb model.second in
              let d₂ = Models-Distinct b.level2 size₂ s₂ model.second in
              (
                record { level1 = c₁; level2 = c₂ },
                rw (before, moves, run₁, run₂, put-calls size₂ x.k x.v x.expire_at cb s₂ d₂),
                record { first = m₁; second = rw moves m₂ },
              )
        ]

    -- The displaced node is found in the second level alone.
    visible-spilled :
        (x : Node V)
        → spilled size₁ key s₁ ≡ some x
        → visible x.k t₁ (Spec.put size₂ x.k x.v x.expire_at cb s₂).0 ≡ visible x.k s₁ s₂
    unfolding valid
    visible-spilled x moves =
        let d₁ = Models-Distinct b.level1 size₁ s₁ model.first in
        let (gone, alive) = if_positive-some (victim size₁ key s₁) x moves in
        let from = victim-Displaced size₁ key s₁ x d₁ gone in
        rw (
          (find-put-Displaced size₁ key value e false s₁ x from).0,
          valid-put_self size₂ x.k x.v x.expire_at cb s₂,
          alive,
          from.found,
          alive,
        )

    -- A node that is displaced when it is not valid any more leaves nothing to be shown.
    valid_buried :
        (x : Node V)
        → victim size₁ key s₁ ≡ some x
        → positive x.expire_at ≡ false
        → valid x.k t₁ ≡ valid x.k s₁
    unfolding valid
    valid_buried x gone dead =
        let d₁ = Models-Distinct b.level1 size₁ s₁ model.first in
        let from = victim-Displaced size₁ key s₁ x d₁ gone in
        rw ((find-put-Displaced size₁ key value e false s₁ x from).0, from.found, dead)

    kept_first :
        (q : Text) (x : Node V)
        → q ≢ key
        → victim size₁ key s₁ ≡ some x
        → x.k ≢ q
        → valid q t₁ ≡ valid q s₁
    kept_first q x apart gone other =
        valid-put_ne size₁ key value e false s₁ q apart
          λ y h. let same : x ≡ y = some_eq (sym gone ∙ h) in λ p. other (ap Node.k same ∙ p)

    others_lem :
        (q : Text)
        → q ≢ key
        → ((y : Node V) → dropped size₂ (spilled size₁ key s₁) s₂ ≡ some y → y.k ≢ q)
        → visible q t₁ (second (spilled size₁ key s₁)) ≡ visible q s₁ s₂
    others_lem q apart safe = elim (Option-cases (victim size₁ key s₁)) [
      | inl still ↦ rw still (
          ap (λ z. or_else z (valid q s₂))
            (valid-put_ne size₁ key value e false s₁ q apart (λ y h. cc)))
      | inr (x, gone) ↦ elim (Bool-cases (positive x.expire_at)) [
        | inr dead ↦
            rw (gone, dead)
              (ap (λ z. or_else z (valid q s₂))
                (elim (Bool-cases (x.k =? q)) [
                  | inl same ↦
                      subst (λ z. valid z t₁ ≡ valid z s₁) (=?_eq x.k q same)
                        (valid_buried x gone dead)
                  | inr other ↦ kept_first q x apart gone (=?_ne x.k q other)
                ]))
        | inl alive ↦
            let moves : spilled size₁ key s₁ ≡ some x = rw (gone, alive) in
            rw moves (elim (Bool-cases (x.k =? q)) [
              | inl same ↦
                  subst
                    (λ z.
                      visible z t₁ (Spec.put size₂ x.k x.v x.expire_at cb s₂).0 ≡ visible z s₁ s₂)
                    (=?_eq x.k q same) (visible-spilled x moves)
              | inr other ↦
                  let ne = =?_ne x.k q other in
                  rw (
                    kept_first q x apart gone ne,
                    valid-put_ne size₂ x.k x.v x.expire_at cb s₂ q (λ p. ne (sym p))
                        (λ y h. safe y (rw (gone, alive) h)),
                  )
            ])
      ]
    ]

    -- The state and the calls of a write.
    abbrev pub Sets : Type 0
    Sets =
        (b' : Bucket V) × (u₂ : List (Node V)) × (Bucket.set_with_expiration cb b key value e
          ≡ ok (b', drop_calls cb (dropped size₂ (spilled size₁ key s₁) s₂)))
        × BucketModels b' size₁ size₂ t₁ u₂
        × (valid key t₁ ≡ (if positive e then some (entry key value e) else none))
        × ((q : Text)
            → q ≢ key
            → ((y : Node V) → dropped size₂ (spilled size₁ key s₁) s₂ ≡ some y → y.k ≢ q)
            → visible q t₁ u₂ ≡ visible q s₁ s₂)

    -- On a bucket that stands for two lists of nodes `SetWithExpiration` does not panic. Afterwards
    -- the first level has the entry that was written, if it has an expiration above 0, and no valid
    -- node of the key otherwise. Every other key shows what it did, also one that moves to the
    -- second level, except for the node that the move displaces from a full second level: that one
    -- goes, and the callback is called on it, if it is set and the node is valid.
    pub set-visible : Sets
    set-visible =
        let (b', run, m) = set_lem in
        (
          b',
          second (spilled size₁ key s₁),
          run,
          m,
          valid-put_self size₁ key value e false s₁,
          others_lem,
        )
