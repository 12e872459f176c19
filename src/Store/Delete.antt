-- ===== src/Store/Delete.antt =====
-- `delete` of pkg/store/lru2.go, on a bucket.
use cache_learning_notes.Base.{
  ℕ, ◌≡◌, ◌≢◌, refl, ap, ◌∙◌, inl, inr, List, [], ◌∷◌, Option, none, some, Bool, ◌||◌, Text, arith,
  if◌then◌else◌, Option-cases, ok,
}
use cache_learning_notes.Layer.Cache.{Node, Calls}
use cache_learning_notes.Layer.Del.{del-Models}
use cache_learning_notes.Layer.Reads.{Models-Distinct}
use cache_learning_notes.Layer.Spec
use cache_learning_notes.Store.Bucket
use cache_learning_notes.Store.Bucket.{Bucket, is_some, delete_calls}
use cache_learning_notes.Store.Model.{
  BucketModels, valid, or_else, visible, valid-del_self, valid-del_ne, del-found, del-missing,
}

module _ {V : Type 0} where
  -- The one call of the callback for an entry that goes, unless its value is nil.
  abbrev pub gone_calls : Bool → Text → Option (Node V) → Calls V
  gone_calls cb key none = []
  gone_calls cb key (some e) = elim e.v [
    | none ↦ []
    | some v ↦ if cb then (key, some v) ∷ [] else []
  ]

  del-is_some :
      (key : Text) (s : List (Node V)) → is_some (Spec.del key s).1 ≡ is_some (valid key s)
  unfolding is_some
  del-is_some key s = elim (Option-cases (valid key s)) [
    | inl none_there ↦ rw (del-missing key s none_there, none_there)
    | inr (e, there) ↦ rw ((del-found key s e there).0, there)
  ]

  is_some-or_else : (o p : Option (Node V)) → is_some o || is_some p ≡ is_some (or_else o p)
  unfolding is_some
  is_some-or_else none p = refl
  is_some-or_else (some e) p = refl

  module _ (cb : Bool) (b : Bucket V) {size₁ size₂ : ℕ} (s₁ s₂ : List (Node V)) (key : Text)
      (model : BucketModels b size₁ size₂ s₁ s₂) where
    pub delete_lem :
        (b' : Bucket V) × (Bucket.delete cb b key
          ≡ ok (
            b',
            is_some (visible key s₁ s₂),
            delete_calls cb key (Spec.del key s₁).1 (Spec.del key s₂).1,
          ))
        × BucketModels b' size₁ size₂ (Spec.del key s₁).0 (Spec.del key s₂).0
    unfolding Bucket.delete
    delete_lem =
        let (c₁, run₁, m₁) = del-Models b.level1 size₁ s₁ key model.first in
        let (c₂, run₂, m₂) = del-Models b.level2 size₂ s₂ key model.second in
        (
          record { level1 = c₁; level2 = c₂ },
          rw (
            run₁,
            run₂,
            del-is_some key s₁,
            del-is_some key s₂,
            is_some-or_else (valid key s₁) (valid key s₂),
          ),
          record { first = m₁; second = m₂ },
        )

    calls_lem :
        ((e : Node V) → visible key s₁ s₂ ≡ some e → e.v ≢ none)
        → delete_calls cb key (Spec.del key s₁).1 (Spec.del key s₂).1
          ≡ gone_calls cb key (visible key s₁ s₂)
    unfolding delete_calls
    calls_lem proper = elim (Option-cases (valid key s₁)) [
      | inr (e, there) ↦
          let ne = proper e (rw there) in rw ((del-found key s₁ e there).0, there) (ground arith)
      | inl gone ↦ elim (Option-cases (valid key s₂)) [
        | inr (e, there) ↦
            rw (del-missing key s₁ gone, (del-found key s₂ e there).0, gone, there) (ground arith)
        | inl gone₂ ↦
            rw (del-missing key s₁ gone, del-missing key s₂ gone₂, gone, gone₂) (ground arith)
      ]
    ]

    -- The state and the calls of a deletion.
    abbrev pub Deletes : Type 0
    Deletes =
        (b' : Bucket V) × (t₁ : List (Node V)) × (t₂ : List (Node V)) × (Bucket.delete cb b key
          ≡ ok (b', is_some (visible key s₁ s₂), gone_calls cb key (visible key s₁ s₂)))
        × BucketModels b' size₁ size₂ t₁ t₂
        × (valid key t₁ ≡ none)
        × (valid key t₂ ≡ none)
        × ((q : Text) → q ≢ key → visible q t₁ t₂ ≡ visible q s₁ s₂)

    -- On a bucket that stands for two lists of nodes, in which the entry that the key shows, if
    -- any, has a value that is not nil, `delete` does not panic and says whether the bucket showed
    -- an entry of the key. Afterwards neither level has a valid node of it, and every other key
    -- shows what it did. The callback, if it is set, is called once, on the entry that was shown.
    pub delete-visible : ((e : Node V) → visible key s₁ s₂ ≡ some e → e.v ≢ none) → Deletes
    delete-visible proper =
        let (b', run, m) = delete_lem in
        let d₁ = Models-Distinct b.level1 size₁ s₁ model.first in
        let d₂ = Models-Distinct b.level2 size₂ s₂ model.second in
        (
          b',
          (Spec.del key s₁).0,
          (Spec.del key s₂).0,
          run ∙ ap (λ z. ok (b', is_some (visible key s₁ s₂), z)) (calls_lem proper),
          m,
          valid-del_self key s₁ d₁,
          valid-del_self key s₂ d₂,
          λ q apart. rw (valid-del_ne key s₁ q apart, valid-del_ne key s₂ q apart),
        )
