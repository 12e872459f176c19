-- ===== src/Store/Invariant.antt =====
-- When a store of pkg/store/lru2.go is well formed, and which entry of each key it shows. A method
-- that works on one bucket keeps the rest.
use cache_learning_notes.Base.{
  ℕ, ◌+◌, ◌≤◌, ◌<◌, ◌≡◌, ◌≢◌, refl, sym, ap, ◌∙◌, subst, inl, inr, List, Option, Text, arith,
  length, ◌==◌, if◌then◌else◌, Bool-cases, Exec, ok, at, ok_eq, at_inside, write_inside,
}
use cache_learning_notes.Layer.Cache.{Node, u16}
use cache_learning_notes.Store.Bucket.{Bucket}
use cache_learning_notes.Store.Hash.{mask_of_next_pow_of_2, bucket_index}
use cache_learning_notes.Store.Mask.{bucket_index_lt}
use cache_learning_notes.Store.Model.{BucketModels, visible}
use cache_learning_notes.Store.Ops.{Store, on_bucket}

-- The two lists of nodes of each bucket.
abbrev pub Views : Type 0 → Type 0
Views V = ℕ → List (Node V) × List (Node V)

module _ {V : Type 0} where
  pub record IsStore (s : Store V) (size₁ size₂ : ℕ) (view : Views V) : Type 0 where
    pub requested : ℕ
    pub low : 0 < requested
    pub high : requested ≤ 32768
    pub masked : s.mask ≡ mask_of_next_pow_of_2 requested
    pub width : length s.buckets ≡ u16 (mask_of_next_pow_of_2 requested + 1)
    pub models :
        (i : ℕ) (b : Bucket V)
        → at s.buckets i ≡ ok b
        → BucketModels b size₁ size₂ (view i).0 (view i).1

  -- The entry of a key that the store shows.
  abbrev pub shown : Store V → Views V → Text → Option (Node V)
  shown s view q = let v = view (bucket_index s.mask q) in visible q v.0 v.1

  abbrev pub update : ℕ → List (Node V) × List (Node V) → Views V → Views V
  update i v view j = if i == j then v else view j

  pub shown-update :
      (s : Store V) (view : Views V) (i : ℕ) (v : List (Node V) × List (Node V)) (q : Text)
      → visible q v.0 v.1 ≡ visible q (view i).0 (view i).1
      → shown s (update i v view) q ≡ shown s view q
  shown-update s view i v q h = elim (Bool-cases (i == bucket_index s.mask q)) [
    | inl e ↦
        let same : i ≡ bucket_index s.mask q = ground arith in
        rw e (h ∙ ap (λ j. visible q (view j).0 (view j).1) same)
    | inr e ↦ rw e refl
  ]

  -- A step on the bucket of a key that took the bucket's lists to `t₁` and `t₂`.
  pub record Stepped {ℓ} {R : Type ℓ} (s : Store V) (size₁ size₂ : ℕ) (view : Views V) (key : Text)
      (run : Exec (Store V × R)) (P : List (Node V) → List (Node V) → R → Type 0) : Type ℓ where
    pub after : Store V
    pub first : List (Node V)
    pub second : List (Node V)
    pub result : R
    pub ran : run ≡ ok (after, result)
    pub mask_kept : after.mask ≡ s.mask
    pub callback_kept : after.has_callback ≡ s.has_callback
    pub well_formed :
        IsStore after size₁ size₂ (update (bucket_index s.mask key) (first, second) view)
    pub holds : P first second result

  module _ (s : Store V) (size₁ size₂ : ℕ) (view : Views V) (store : IsStore s size₁ size₂ view)
      (key : Text) where
    abbrev pub idx : ℕ
    idx = bucket_index s.mask key

    pub inside : idx < length s.buckets
    inside =
        let bound = bucket_index_lt store.requested key store.low store.high in
        subst (λ m. bucket_index m key < length s.buckets) (sym store.masked)
          (omega (arith, bound, store.width))

    well_formed_after :
        (b : Bucket V) (bs : List (Bucket V)) (v : List (Node V) × List (Node V))
        → length bs ≡ length s.buckets
        → at bs idx ≡ ok b
        → ((j : ℕ) → idx ≢ j → at bs j ≡ at s.buckets j)
        → BucketModels b size₁ size₂ v.0 v.1
        → IsStore (record s { buckets = bs }) size₁ size₂ (update idx v view)
    well_formed_after b bs v wide here elsewhere model = record {
      requested = store.requested;
      low = store.low;
      high = store.high;
      masked = store.masked;
      width = omega (arith, wide, store.width);
      models = λ i b' h. elim (Bool-cases (idx == i)) [
        | inl e ↦
            let same : idx ≡ i = ground arith in
            let written : b ≡ b' = ok_eq (sym here ∙ ap (at bs) same ∙ h) in
            rw e (subst (λ z. BucketModels z size₁ size₂ v.0 v.1) written model)
        | inr e ↦ rw e (store.models i b' (sym (elsewhere i (ground arith)) ∙ h))
      ];
    }

    -- It lifts what is proved of the step on a bucket to the store.
    pub on_bucket_lem {ℓ} :
        {R : Type ℓ} (step : Bucket V → Exec (Bucket V × R))
        (P : List (Node V) → List (Node V) → R → Type 0)
        → ((b : Bucket V)
            → BucketModels b size₁ size₂ (view idx).0 (view idx).1
            → (b' : Bucket V) × (t₁ : List (Node V)) × (t₂ : List (Node V)) × (r : R) × (step b
                ≡ ok (b', r))
              × BucketModels b' size₁ size₂ t₁ t₂
              × P t₁ t₂ r)
        → Stepped s size₁ size₂ view key (on_bucket s idx step) P
    unfolding on_bucket
    on_bucket_lem step P lemma =
        let (b, read) = at_inside s.buckets idx inside in
        let (b', t₁, t₂, r, ran, model, holds) = lemma b (store.models idx b read) in
        let w = write_inside s.buckets idx b' inside in
        record {
          after = record s { buckets = w.rest };
          first = t₁;
          second = t₂;
          result = r;
          ran = rw (read, ran, w.ran);
          mask_kept = refl;
          callback_kept = refl;
          well_formed = well_formed_after b' w.rest (t₁, t₂) w.same_length w.here w.elsewhere model;
          holds = holds;
        }
