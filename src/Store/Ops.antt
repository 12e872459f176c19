-- ===== src/Store/Ops.antt =====
-- The type `lru2Store` of pkg/store/lru2.go, its constructor and its methods, and `NewOptions` and
-- `NewStore` of pkg/store/store.go. Each method holds the lock of the bucket that it works on, so a
-- bucket's part is one step. The ticker and the goroutine of the clean-up are a call of `clean_up`.
use cache_learning_notes.Base.{
  ℕ, ◌+◌, List, [], ◌∷◌, ◌++◌, Option, Bool, true, false, Text, text_eq, ◌=?◌, Exec, ok, ◌>>=◌, at,
  write, replicate, ◌==◌, if◌then◌else◌,
}
use cache_learning_notes.Base.Int.{ℤ, pos}
use cache_learning_notes.Layer.Cache.{Value, Calls, u16, create, positive}
use cache_learning_notes.Store.Bucket
use cache_learning_notes.Store.Bucket.{Bucket, expiration_time}
use cache_learning_notes.Store.Hash.{mask_of_next_pow_of_2, bucket_index}

-- `on_evicted` says whether the callback is set.
pub record Options : Type 0 where
  pub max_bytes : ℤ
  pub bucket_count : ℕ
  pub cap_per_bucket : ℕ
  pub level2_cap : ℕ
  pub cleanup_interval : ℤ
  pub on_evicted : Bool

-- `time.Minute`, in nanoseconds.
abbrev pub minute : ℤ
minute = pos 60_000_000_000

unfoldable pub new_options : Options
new_options = record {
  max_bytes = pos 8192;
  bucket_count = 16;
  cap_per_bucket = 512;
  level2_cap = 256;
  cleanup_interval = minute;
  on_evicted = false;
}

-- `ticking` is false once the ticker of the clean-up is stopped.
pub record Store (V : Type 0) : Type 0 where
  pub buckets : List (Bucket V)
  pub has_callback : Bool
  pub ticking : Bool
  pub mask : ℕ

abbrev pub default_to : ℕ → ℕ → ℕ
default_to d n = if n == 0 then d else n

unfoldable pub with_defaults : Options → Options
with_defaults opts = record opts {
  bucket_count = default_to 16 opts.bucket_count;
  cap_per_bucket = default_to 1024 opts.cap_per_bucket;
  level2_cap = default_to 1024 opts.level2_cap;
  cleanup_interval = if positive opts.cleanup_interval then opts.cleanup_interval else minute;
}

abbrev pub CacheType : Type 0
CacheType = Text

abbrev pub lru : CacheType
lru = b'l' ∷ b'r' ∷ b'u' ∷ []

abbrev pub lru2 : CacheType
lru2 = b'l' ∷ b'r' ∷ b'u' ∷ b'2' ∷ []

module _ {V : Type 0} where
  unfoldable pub new_lru2_cache : Options → Store V
  unfolding with_defaults
  new_lru2_cache opts =
      let o = with_defaults opts in
      let mask = mask_of_next_pow_of_2 o.bucket_count in
      record {
        buckets =
            replicate (u16 (mask + 1))
              (record { level1 = create o.cap_per_bucket; level2 = create o.level2_cap });
        has_callback = o.on_evicted;
        ticking = true;
        mask = mask;
      }

  unfoldable pub new_store : CacheType → Options → Store V
  new_store cache_type opts =
      if cache_type =? lru2 then new_lru2_cache opts else new_lru2_cache opts

  -- A method's step on the bucket of a key.
  unfoldable pub on_bucket {ℓ} :
      {R : Type ℓ} → Store V → ℕ → (Bucket V → Exec (Bucket V × R)) → Exec (Store V × R)
  on_bucket s idx step = do
    b ← at s.buckets idx
    (b', r) ← step b
    bs ← write s.buckets idx b'
    ok (record s { buckets = bs }, r)

  unfoldable pub get : Store V → Text → ℤ → ℤ → Exec (Store V × (Option (Value V) × Calls V))
  unfolding on_bucket
  get s key now now' =
      on_bucket s (bucket_index s.mask key)
        λ b. Bucket.get s.has_callback b key now now' >>= λ r. ok (r.0, (r.1, r.2))

  unfoldable pub set_with_expiration : Store V → Text → Value V → ℤ → ℤ → Exec (Store V × Calls V)
  unfolding on_bucket
  set_with_expiration s key value expiration now =
      on_bucket s (bucket_index s.mask key)
        λ b. Bucket.set_with_expiration s.has_callback b key value (expiration_time now expiration)

  unfoldable pub set : Store V → Text → Value V → ℤ → Exec (Store V × Calls V)
  unfolding set_with_expiration
  set s key value now = set_with_expiration s key value (pos 9_999_999_999_999_999) now

  unfoldable pub delete : Store V → Text → Exec (Store V × (Bool × Calls V))
  unfolding on_bucket
  delete s key =
      on_bucket s (bucket_index s.mask key)
        λ b. Bucket.delete s.has_callback b key >>= λ r. ok (r.0, (r.1, r.2))

  -- The first loop of `Clear`.
  unfoldable pub all_keys : List (Bucket V) → List Text → Exec (List Text)
  all_keys [] keys = ok keys
  all_keys (b ∷ bs) keys = Bucket.collect_keys (λ _. true) b keys >>= all_keys bs

  unfoldable pub delete_each : Store V → List Text → Exec (Store V × Calls V)
  delete_each s [] = ok (s, [])
  delete_each s (key ∷ keys) = do
    (s', r) ← delete s key
    (s'', calls) ← delete_each s' keys
    ok (s'', r.1 ++ calls)

  unfoldable pub clear : Store V → Exec (Store V × Calls V)
  unfolding all_keys delete_each
  clear s = all_keys s.buckets [] >>= delete_each s

  unfoldable pub len_from : List (Bucket V) → ℕ → Exec ℕ
  len_from [] n = ok n
  len_from (b ∷ bs) n = Bucket.count_live b n >>= len_from bs

  unfoldable pub len : Store V → Exec ℕ
  unfolding len_from
  len s = len_from s.buckets 0

  unfoldable pub clean_each : Bool → List (Bucket V) → ℤ → Exec (List (Bucket V) × Calls V)
  clean_each has_callback [] now = ok ([], [])
  clean_each has_callback (b ∷ bs) now = do
    (b', calls) ← Bucket.clean_up has_callback b now
    (bs', calls') ← clean_each has_callback bs now
    ok (b' ∷ bs', calls ++ calls')

  -- One tick of `cleanupLoop`.
  unfoldable pub clean_up : Store V → ℤ → Exec (Store V × Calls V)
  unfolding clean_each
  clean_up s now = do
    (bs, calls) ← clean_each s.has_callback s.buckets now
    ok (record s { buckets = bs }, calls)

  unfoldable pub close : Store V → Store V
  close s = record s { ticking = false }
