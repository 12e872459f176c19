-- ===== src/Store/Create.antt =====
-- `newLRU2Cache` and `NewStore` of pkg/store: the store that they make is well formed and empty.
use cache_learning_notes.Base.{
  ℕ, zero, suc, ◌≤◌, ◌<◌, ◌≡◌, [], none, Text, text_eq, Exec, ok, panic, at, replicate,
  length-replicate, refl, sym, ap, ◌∙◌, subst, arith, ok_eq,
}
use cache_learning_notes.Base.Int.{ℤ}
use cache_learning_notes.Layer.Cache.{Value, Calls}
use cache_learning_notes.Layer.Spec.{find}
use cache_learning_notes.Layer.Walk.{create-Models}
use cache_learning_notes.Store.Bucket.{Bucket}
use cache_learning_notes.Store.Hash.{bucket_index}
use cache_learning_notes.Store.Invariant.{Views, IsStore, shown}
use cache_learning_notes.Store.Mask.{mask_wraps}
use cache_learning_notes.Store.Model.{BucketModels, valid}
use cache_learning_notes.Store.RoundTrip.{fresh, get-shown}
use cache_learning_notes.Store.Ops
use cache_learning_notes.Store.Ops.{
  Options, Store, CacheType, with_defaults, default_to, new_store, on_bucket,
}

at-replicate : {A : Type 0} (n i : ℕ) (a b : A) → at (replicate n a) i ≡ ok b → a ≡ b
unfolding at
at-replicate zero i a b h = ground arith
at-replicate (suc n) zero a b h = ok_eq h
at-replicate (suc n) (suc i) a b h = at-replicate n i a b h

default_lem :
    (d n bound : ℕ)
    → 0 < d
    → d ≤ bound
    → n ≤ bound
    → (0 < default_to d n) × (default_to d n ≤ bound)
default_lem d n bound p h k = ground arith

kept_lem : (n : ℕ) → 32768 < n → default_to 16 n ≡ n
kept_lem n h = ground arith

-- The options for which a store is made as it should be: the number of buckets fits the mask,
-- and a layer's capacity its node numbers.
pub record IsUsable (opts : Options) : Type 0 where
  pub buckets : opts.bucket_count ≤ 32768
  pub level1 : opts.cap_per_bucket < 65535
  pub level2 : opts.level2_cap < 65535

abbrev pub nothing : {V : Type 0} → Views V
nothing i = ([], [])

module _ {V : Type 0} where
  same_for_all :
      (cache_type : CacheType) (opts : Options)
      → new_store cache_type opts ≡ Ops.new_lru2_cache {V = V} opts
  unfolding new_store
  same_for_all cache_type opts = ground arith

  -- With usable options the new store is well formed and shows nothing, for every cache type.
  pub new_store-IsStore :
      (cache_type : CacheType) (opts : Options)
      → IsUsable opts
      → IsStore {V = V}
          (new_store cache_type opts)
          (with_defaults opts).cap_per_bucket
          (with_defaults opts).level2_cap
          nothing
  unfolding Ops.new_lru2_cache with_defaults
  new_store-IsStore cache_type opts usable =
      let (some_buckets, few) =
        default_lem 16 opts.bucket_count 32768 (omega arith) (omega arith) usable.buckets in
      let (p₁, h₁) =
        default_lem 1024 opts.cap_per_bucket 65534 (omega arith) (omega arith)
          (omega (arith, usable.level1)) in
      let (p₂, h₂) =
        default_lem 1024 opts.level2_cap 65534 (omega arith) (omega arith)
          (omega (arith, usable.level2)) in
      let c₁ = default_to 1024 opts.cap_per_bucket in
      let c₂ = default_to 1024 opts.level2_cap in
      subst (λ z. IsStore z c₁ c₂ nothing) (sym (same_for_all cache_type opts))
        (record {
          requested = default_to 16 opts.bucket_count;
          low = some_buckets;
          high = few;
          masked = refl;
          width = length-replicate _ _;
          models = λ i b h.
              subst (λ z. BucketModels z c₁ c₂ [] []) (at-replicate _ i _ b h)
                (record {
                  first = create-Models _ p₁ (omega (arith, h₁));
                  second = create-Models _ p₂ (omega (arith, h₂));
                });
        })

  nothing_lem : (s : Store V) (q : Text) → shown s nothing q ≡ none
  unfolding valid find
  nothing_lem s q = refl

  -- With usable options, a `Get` from the new store does not panic and finds nothing.
  pub new_store-get :
      (cache_type : CacheType) (opts : Options) (key : Text) (now : ℤ)
      → IsUsable opts
      → (s' : Store V) × (calls : Calls V) × (Ops.get (new_store cache_type opts) key now now
          ≡ ok (s', (none, calls)))
  new_store-get cache_type opts key now usable =
      let s : Store V = new_store cache_type opts in
      let (s', view, calls, ran, good, kept, others) =
        get-shown s _ _ nothing (new_store-IsStore cache_type opts usable) key now in
      (s', calls, ran ∙ ap (λ o. ok (s', (fresh now o, calls))) (nothing_lem s key))

  no_bucket :
      {R : Type 0} (s : Store V) (i : ℕ) (step : Bucket V → Exec (Bucket V × R))
      → s.buckets ≡ []
      → on_bucket s i step ≡ panic
  unfolding on_bucket at
  no_bucket s i step empty = rw (empty, at)

  none_made :
      (cache_type : CacheType) (opts : Options)
      → 32768 < opts.bucket_count
      → opts.bucket_count < 65536
      → (new_store {V = V} cache_type opts).buckets ≡ []
  unfolding Ops.new_lru2_cache with_defaults
  none_made cache_type opts many below =
      ap Store.buckets (same_for_all cache_type opts)
      ∙ rw (kept_lem opts.bucket_count many, mask_wraps opts.bucket_count many below)

  -- With 32769 to 65535 buckets the new store has none, so that every read, write and deletion
  -- panics.
  pub new_store_panics :
      (cache_type : CacheType) (opts : Options) (key : Text) (value : Value V)
      (expiration now now' : ℤ)
      → 32768 < opts.bucket_count
      → opts.bucket_count < 65536
      → (Ops.get {V = V} (new_store cache_type opts) key now now' ≡ panic)
        × (Ops.set_with_expiration (new_store cache_type opts) key value expiration now ≡ panic)
        × (Ops.delete {V = V} (new_store cache_type opts) key ≡ panic)
  unfolding Ops.get Ops.set_with_expiration Ops.delete
  new_store_panics cache_type opts key value expiration now now' many below =
      let s : Store V = new_store cache_type opts in
      let empty = none_made cache_type opts many below in
      (
        no_bucket s (bucket_index s.mask key) _ empty,
        no_bucket s (bucket_index s.mask key) _ empty,
        no_bucket s (bucket_index s.mask key) _ empty,
      )
