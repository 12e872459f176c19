-- ===== src/Store/Len.antt =====
-- `Len` of pkg/store/lru2.go on a well-formed store.
use cache_learning_notes.Base.{
  ℕ, zero, suc, ◌+◌, ◌≡◌, refl, ap, ◌∙◌, List, [], ◌∷◌, true, text_eq, arith, length, ok, at,
}
use cache_learning_notes.Layer.Cache.{Node}
use cache_learning_notes.Layer.Spec
use cache_learning_notes.Layer.Walk.{walk-Models}
use cache_learning_notes.Store.Bucket
use cache_learning_notes.Store.Bucket.{Bucket, contains, collect, collect_new}
use cache_learning_notes.Store.Invariant.{Views, IsStore}
use cache_learning_notes.Store.Model.{BucketModels}
use cache_learning_notes.Store.Ops
use cache_learning_notes.Store.Ops.{Store}

-- How many entries the layers of the buckets hold that were not deleted.
abbrev pub live_count : {V : Type 0} → ℕ → Views V → ℕ
live_count zero view = 0
live_count (suc n) view =
    length (Spec.live (view 0).0) + length (Spec.live (view 0).1) + live_count n (λ j. view (suc j))

module _ {V : Type 0} (size₁ size₂ : ℕ) where
  fold_count : (s : List (Node V)) (n : ℕ) → Spec.fold (λ k _. (suc k, true)) n s ≡ n + length s
  unfolding Spec.fold
  fold_count [] n = omega arith
  fold_count (e ∷ s) n = omega (arith, fold_count s (suc n))

  count_live_lem :
      (b : Bucket V) (s₁ s₂ : List (Node V)) (n : ℕ)
      → BucketModels b size₁ size₂ s₁ s₂
      → Bucket.count_live b n ≡ ok (n + length (Spec.live s₁) + length (Spec.live s₂))
  unfolding Bucket.count_live
  count_live_lem b s₁ s₂ n model =
      rw (walk-Models (λ k _. (suc k, true)) b.level1 size₁ s₁ n model.first) (
        walk-Models (λ k _. (suc k, true)) b.level2 size₂ s₂ _ model.second
        ∙ ap ok (
            fold_count (Spec.live s₂) _
            ∙ ap (λ m. m + length (Spec.live s₂)) (fold_count (Spec.live s₁) n)))

  len_from_lem :
      (bs : List (Bucket V)) (view : Views V) (n : ℕ)
      → ((j : ℕ) (b : Bucket V) → at bs j ≡ ok b → BucketModels b size₁ size₂ (view j).0 (view j).1)
      → Ops.len_from bs n ≡ ok (n + live_count (length bs) view)
  unfolding Ops.len_from at
  len_from_lem [] view n models = ap ok (omega arith)
  len_from_lem (b ∷ bs) view n models =
      let rest =
        len_from_lem bs (λ j. view (suc j))
          (n + length (Spec.live (view 0).0) + length (Spec.live (view 0).1))
          (λ j b' h. models (suc j) b' h) in
      rw (count_live_lem b (view 0).0 (view 0).1 n (models 0 b refl)) (rest ∙ ap ok (omega arith))

  -- On a well-formed store `Len` does not panic and counts, over both levels of all buckets, the
  -- nodes that are not deleted.
  pub len-live_count :
      (s : Store V) (view : Views V)
      → IsStore s size₁ size₂ view
      → Ops.len s ≡ ok (live_count (length s.buckets) view)
  unfolding Ops.len
  len-live_count s view store = len_from_lem s.buckets view 0 store.models ∙ ap ok (omega arith)
