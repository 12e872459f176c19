-- ===== src/Tests/Stores.antt =====
-- The store of pkg/store/lru2.go at concrete inputs: a new store of two buckets.
use cache_learning_notes.Base.{
  length, ℕ, ◌+◌, ◌<◌, true, some, none, panic, Text, arith, ◌≡◌, ◌≢◌, refl, ok, if◌then◌else◌,
}
use cache_learning_notes.Base.Int.{pos, wrap64, ◌+ℤ◌}
use cache_learning_notes.Layer.Cache.{Node, Calls, Value, positive, u16}
use cache_learning_notes.Layer.Reads.{victim}
use cache_learning_notes.Store.Answer.{moves}
use cache_learning_notes.Store.Model.{valid}
use cache_learning_notes.Store.Bucket.{expiration_time, is_some, past}
use cache_learning_notes.Store.CleanStore.{goes, clean_up-shown}
use cache_learning_notes.Store.CleanUp.{unless}
use cache_learning_notes.Store.Clear.{clear-shown}
use cache_learning_notes.Store.Len.{live_count, len-live_count}
use cache_learning_notes.Store.Create.{IsUsable, nothing, new_store-IsStore, new_store_panics}
use cache_learning_notes.Store.Hash.{mask_of_next_pow_of_2, bucket_index}
use cache_learning_notes.Store.Invariant.{Views, IsStore, Stepped, shown, update}
use cache_learning_notes.Store.Mask.{IsNextPow, mask-IsNextPow, bucket_index_lt}
use cache_learning_notes.Store.Methods.{HasSet, set_on_store_lem}
use cache_learning_notes.Store.Ops
use cache_learning_notes.Store.Ops.{Options, Store, lru, lru2, new_store, new_options}
use cache_learning_notes.Store.RoundTrip.{fresh, get-shown, set-get, delete-get}
use cache_learning_notes.Tests.Layers.{a, program}

abbrev two_buckets : Options
two_buckets = record new_options { bucket_count = 2; cap_per_bucket = 4; level2_cap = 4 }

two_buckets-IsUsable : IsUsable two_buckets
two_buckets-IsUsable = record { buckets = omega arith; level1 = omega arith; level2 = omega arith }

new_store-IsStore_example : IsStore {V = ℕ} (new_store lru two_buckets) 4 4 nothing
unfolding Ops.with_defaults
new_store-IsStore_example = new_store-IsStore lru two_buckets two_buckets-IsUsable

abbrev fresh_store : Store ℕ
fresh_store = new_store lru2 two_buckets

fresh_store-IsStore : IsStore fresh_store 4 4 nothing
unfolding Ops.with_defaults
fresh_store-IsStore = new_store-IsStore lru2 two_buckets two_buckets-IsUsable

-- The store after a write of the key.
abbrev written :
    Stepped fresh_store 4 4 nothing a
      (Ops.set_with_expiration fresh_store a (some 1) (pos 10) (pos 5))
      (HasSet fresh_store 4 4 nothing fresh_store-IsStore a
        (some 1)
        (expiration_time (pos 5) (pos 10)))
written = set_on_store_lem fresh_store 4 4 nothing fresh_store-IsStore a (some 1) (pos 10) (pos 5)

abbrev store_a : Store ℕ
store_a = written.after

abbrev view_a : Views ℕ
view_a = update (bucket_index fresh_store.mask a) (written.first, written.second) nothing

store_a-IsStore : IsStore store_a 4 4 view_a
store_a-IsStore = written.well_formed

expires_later : positive (expiration_time (pos 5) (pos 10)) ≡ true
unfolding program expiration_time wrap64 ◌+ℤ◌
expires_later = refl

set-get_example :
    (s' : Store ℕ) × (s'' : Store ℕ) × (calls : Calls ℕ) × (calls' : Calls ℕ)
    × (Ops.set_with_expiration fresh_store a (some 1) (pos 10) (pos 5) ≡ ok (s', calls))
    × (Ops.get s' a (pos 7) (pos 8)
        ≡ ok (
          s'',
          (if past (pos 7) (expiration_time (pos 5) (pos 10)) then none else some (some 1), calls'),
        ))
set-get_example =
    set-get fresh_store 4 4 nothing fresh_store-IsStore a (some 1) (pos 10) (pos 5) (pos 7) (pos 8)
      expires_later

delete-get_example :
    (s' : Store ℕ) × (s'' : Store ℕ) × (calls : Calls ℕ) × (calls' : Calls ℕ) × (Ops.delete store_a
        a
      ≡ ok (s', (is_some (shown store_a view_a a), calls)))
    × (Ops.get s' a (pos 7) (pos 8) ≡ ok (s'', (none, calls')))
delete-get_example = delete-get store_a 4 4 view_a store_a-IsStore a (pos 7) (pos 8)

abbrev too_many : Options
too_many = record new_options { bucket_count = 40000 }

new_store_panics_example :
    (Ops.get {V = ℕ} (new_store lru2 too_many) a (pos 5) (pos 5) ≡ panic)
    × (Ops.set_with_expiration {V = ℕ} (new_store lru2 too_many) a (some 1) (pos 10) (pos 5)
        ≡ panic)
    × (Ops.delete {V = ℕ} (new_store lru2 too_many) a ≡ panic)
new_store_panics_example =
    new_store_panics lru2 too_many a (some 1) (pos 10) (pos 5) (pos 5) (omega arith) (omega arith)

mask-IsNextPow_example : IsNextPow 5 (mask_of_next_pow_of_2 5 + 1)
mask-IsNextPow_example = mask-IsNextPow 5 (omega arith) (omega arith)

bucket_index_lt_example :
    bucket_index (mask_of_next_pow_of_2 5) a < u16 (mask_of_next_pow_of_2 5 + 1)
bucket_index_lt_example = bucket_index_lt 5 a (omega arith) (omega arith)

get-shown_example :
    (s' : Store ℕ) × (view' : Views ℕ) × (calls : Calls ℕ) × (Ops.get store_a a (pos 7) (pos 7)
      ≡ ok (s', (fresh (pos 7) (shown store_a view_a a), calls)))
    × IsStore s' 4 4 view'
    × ((v : Value ℕ)
        → fresh (pos 7) (shown store_a view_a a) ≡ some v
        → shown s' view' a ≡ shown store_a view_a a)
    × ((q : Text)
        → q ≢ a
        → (moves (pos 7) (valid a (view_a (bucket_index store_a.mask a)).0) ≡ true
            → (x : Node ℕ) → victim 4 a (view_a (bucket_index store_a.mask a)).1 ≡ some x
            → x.k ≢ q)
        → shown s' view' q ≡ shown store_a view_a q)
get-shown_example = get-shown store_a 4 4 view_a store_a-IsStore a (pos 7)

clear-shown_example :
    (s' : Store ℕ) × (view' : Views ℕ) × (calls : Calls ℕ) × (Ops.clear store_a ≡ ok (s', calls))
    × IsStore s' 4 4 view'
    × ((q : Text) → shown s' view' q ≡ none)
clear-shown_example = clear-shown 4 4 store_a view_a store_a-IsStore

len-live_count_example : Ops.len store_a ≡ ok (live_count (length store_a.buckets) view_a)
len-live_count_example = len-live_count 4 4 store_a view_a store_a-IsStore

clean_up-shown_example :
    (s' : Store ℕ) × (view' : Views ℕ) × (calls : Calls ℕ) × (Ops.clean_up store_a (pos 99)
      ≡ ok (s', calls))
    × IsStore s' 4 4 view'
    × ((q : Text)
        → shown s' view' q
          ≡ unless
              (goes (pos 99) q (view_a (bucket_index store_a.mask q)))
              (shown store_a view_a q))
clean_up-shown_example = clean_up-shown store_a 4 4 view_a (pos 99) store_a-IsStore
