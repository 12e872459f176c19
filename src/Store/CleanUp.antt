-- ===== src/Store/CleanUp.antt =====
-- The clean-up of one bucket in `cleanupLoop` of pkg/store/lru2.go.
use cache_learning_notes.Base.{
  ℕ, ◌≡◌, refl, sym, ap, ◌∙◌, subst, inl, inr, List, [], ◌∷◌, ◌++◌, Option, none, Bool, true, false,
  ◌||◌, Text, text_eq, ◌=?◌, =?_eq, =?_ne, Bool-cases, ok, Exec,
}
use cache_learning_notes.Base.Int.{ℤ}
use cache_learning_notes.Layer.Cache.{Node, Calls}
use cache_learning_notes.Layer.Reads.{Distinct, Models-Distinct}
use cache_learning_notes.Layer.Spec
use cache_learning_notes.Layer.Walk.{walk-Models}
use cache_learning_notes.Store.Bucket
use cache_learning_notes.Store.Bucket.{Bucket, past, expired, contains, collect, collect_new}
use cache_learning_notes.Store.Delete.{delete_lem}
use cache_learning_notes.Store.Model.{BucketModels, valid, valid-del_self, valid-del_ne}
use cache_learning_notes.Store.Collect.{collect_lem, collect_new_lem, passes, any_passing-passes}

-- What is left of an entry when its key is deleted, or not.
abbrev pub unless : {A : Type 0} → Bool → Option A → Option A
unless true o = none
unless false o = o

module _ {V : Type 0} where
  pub unless_twice :
      (c d : Bool) (v v' w : Option (Node V))
      → v' ≡ unless d v
      → w ≡ unless c v'
      → w ≡ unless (d || c) v
  unless_twice true true v v' w h k = k
  unless_twice false true v v' w h k = k ∙ h
  unless_twice true false v v' w h k = k
  unless_twice false false v v' w h k = k ∙ h

  valid-del :
      (key q : Text) (s : List (Node V))
      → Distinct s
      → valid q (Spec.del key s).0 ≡ unless (q =? key) (valid q s)
  valid-del key q s d = elim (Bool-cases (q =? key)) [
    | inl same ↦ rw same (
        subst (λ z. valid z (Spec.del key s).0 ≡ none) (sym (=?_eq q key same))
          (valid-del_self key s d))
    | inr apart ↦ rw apart (valid-del_ne key s q (=?_ne q key apart))
  ]

  -- The lists of a bucket after a run that deletes the keys of a test.
  pub record Cleared (b : Bucket V) (size₁ size₂ : ℕ) (s₁ s₂ : List (Node V)) (goes : Text → Bool)
      (run : Exec (Bucket V × Calls V)) : Type 0 where
    pub after : Bucket V
    pub first : List (Node V)
    pub second : List (Node V)
    pub calls : Calls V
    pub ran : run ≡ ok (after, calls)
    pub models : BucketModels after size₁ size₂ first second
    pub left₁ : (q : Text) → valid q first ≡ unless (goes q) (valid q s₁)
    pub left₂ : (q : Text) → valid q second ≡ unless (goes q) (valid q s₂)

  delete_all-Cleared :
      (cb : Bool) (b : Bucket V) (size₁ size₂ : ℕ) (s₁ s₂ : List (Node V)) (keys : List Text)
      → BucketModels b size₁ size₂ s₁ s₂
      → Cleared b size₁ size₂ s₁ s₂ (contains keys) (Bucket.delete_all cb b keys)
  unfolding Bucket.delete_all contains
  delete_all-Cleared cb b size₁ size₂ s₁ s₂ [] model = record {
    after = b;
    first = s₁;
    second = s₂;
    calls = [];
    ran = refl;
    models = model;
    left₁ = λ q. refl;
    left₂ = λ q. refl;
  }
  delete_all-Cleared cb b size₁ size₂ s₁ s₂ (key ∷ keys) model =
      let (b₁, ran, m₁) = delete_lem cb b s₁ s₂ key model in
      let rest = delete_all-Cleared cb b₁ size₁ size₂ _ _ keys m₁ in
      let d₁ = Models-Distinct b.level1 size₁ s₁ model.first in
      let d₂ = Models-Distinct b.level2 size₂ s₂ model.second in
      record {
        after = rest.after;
        first = rest.first;
        second = rest.second;
        calls = Bucket.delete_calls cb key (Spec.del key s₁).1 (Spec.del key s₂).1 ++ rest.calls;
        ran = rw (ran, rest.ran) refl;
        models = rest.models;
        left₁ = λ q.
            unless_twice (contains keys q) (q =? key) _ _ _ (valid-del key q s₁ d₁) (rest.left₁ q);
        left₂ = λ q.
            unless_twice (contains keys q) (q =? key) _ _ _ (valid-del key q s₂ d₂) (rest.left₂ q);
      }

  module _ (cb : Bool) (b : Bucket V) (size₁ size₂ : ℕ) (s₁ s₂ : List (Node V)) (now : ℤ)
      (model : BucketModels b size₁ size₂ s₁ s₂) where
    -- Whether the entry of a key has expired in one of the levels.
    abbrev pub stale_anywhere : Text → Bool
    stale_anywhere q = passes (expired now) (valid q s₁) || passes (expired now) (valid q s₂)

    collected : List Text
    collected =
        Spec.fold (collect_new (expired now)) (Spec.fold (collect (expired now)) [] (Spec.live s₁))
          (Spec.live s₂)

    collect_keys_lem : Bucket.collect_keys (expired now) b [] ≡ ok collected
    unfolding Bucket.collect_keys collected
    collect_keys_lem =
        rw
          (
            walk-Models (collect (expired now)) b.level1 size₁ s₁ [] model.first,
            walk-Models (collect_new (expired now)) b.level2 size₂ s₂ _ model.second,
          )
          refl

    collected_lem : (q : Text) → contains collected q ≡ stale_anywhere q
    unfolding collected contains
    collected_lem q =
        collect_new_lem (expired now) q s₂ (Spec.fold (collect (expired now)) [] (Spec.live s₁))
        ∙ rw
            (
              collect_lem (expired now) q s₁ [],
              any_passing-passes (expired now) q s₁ (Models-Distinct b.level1 size₁ s₁ model.first),
              any_passing-passes (expired now) q s₂
                  (Models-Distinct b.level2 size₂ s₂ model.second),
            )
            refl

    -- The clean-up of a bucket does not panic and ends. The keys whose entry has expired in one of the
    -- levels have no valid node in either level afterwards, also where the other entry has not
    -- expired; every other key has in both levels the valid nodes from before.
    pub clean_up-Cleared : Cleared b size₁ size₂ s₁ s₂ stale_anywhere (Bucket.clean_up cb b now)
    unfolding Bucket.clean_up
    clean_up-Cleared =
        let c = delete_all-Cleared cb b size₁ size₂ s₁ s₂ collected model in
        record {
          after = c.after;
          first = c.first;
          second = c.second;
          calls = c.calls;
          ran = rw collect_keys_lem c.ran;
          models = c.models;
          left₁ = λ q. c.left₁ q ∙ ap (λ z. unless z (valid q s₁)) (collected_lem q);
          left₂ = λ q. c.left₂ q ∙ ap (λ z. unless z (valid q s₂)) (collected_lem q);
        }
