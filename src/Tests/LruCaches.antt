-- ===== src/Tests/LruCaches.antt =====
-- The single-level cache of pkg/store/lru.go at concrete inputs: a limit of four bytes, and entries of two.
use cache_learning_notes.Base.{
  ℕ, ◌≡◌, refl, List, [], ◌∷◌, ◌++◌, ◌⊎◌, reverse, none, some, true, false, Text, text_eq, text_beq,
  arith, Exec, ok, panic, ◌>>=◌, if◌then◌else◌, count, subst,
}
use cache_learning_notes.Base.Dict.{lookup, insert, delete}
use cache_learning_notes.Base.Int.{ℤ, pos, ltb_ℤ, wrap64, ◌+ℤ◌, ◌-ℤ◌}
use cache_learning_notes.Layer.Cache.{Calls, positive}
use cache_learning_notes.LruCache.Cache.{
  LruEntry, LruCache, new_lru_cache, point_at, set, set_with_expiration, date, get, is_past, close,
  evict, evict_loop, evict_back, overwrite, push_front, move_to_front, erase, back, remove_element,
  delete_key, cleanup_expired, set_dated,
}
use cache_learning_notes.LruCache.Clean.{
  Cleaned, IsIn, Visits, here, later, cleanup_expired-Cleaned,
}
use cache_learning_notes.LruCache.Methods.{set-bound, get-Spec}
use cache_learning_notes.LruCache.Model.{Evicted, entries, oldest_first}
use cache_learning_notes.LruCache.Reachable.{
  Reachable, IsValid, created, stepped, sets_with_expiration, reachable-IsValid,
}
use cache_learning_notes.LruCache.Recount.{set_with_expiration-date}
use cache_learning_notes.LruCache.Spec
use cache_learning_notes.LruCache.Writes.{set-Evicted}
use cache_learning_notes.Store.Ops.{Options, new_options, minute}
use cache_learning_notes.Tests.Layers.{a, b, c}

unfoldable pub lru_program : Unit {0}
unfolding text_beq lookup insert delete new_lru_cache set set_with_expiration date get close evict
    evict_loop evict_back overwrite push_front move_to_front erase back remove_element delete_key
    cleanup_expired count positive wrap64 ◌+ℤ◌ ◌-ℤ◌ new_options set_dated
lru_program = tt

abbrev bytes : ℕ → ℕ
bytes n = n

abbrev options : Options
unfolding new_options
options = record new_options { max_bytes = pos 4; on_evicted = true }

abbrev unused : ℕ → LruEntry ℕ
unused i = record { key = []; value = 0 }

abbrev empty : LruCache ℕ
unfolding new_lru_cache positive
empty = new_lru_cache bytes unused options

-- The third entry is over the limit. The first goes, and its two bytes are subtracted twice.
three_sets : Exec (Calls ℕ × ℤ × List ℕ)
three_sets = do
  (c₁, _) ← set bytes empty a (some 1)
  (c₂, _) ← set bytes c₁ b (some 1)
  (c₃, calls) ← set bytes c₂ c (some 1)
  ok (calls, c₃.used_bytes, c₃.list)

three_sets_evict : three_sets ≡ ok ((a, some 1) ∷ [], pos 2, 2 ∷ 1 ∷ [])
unfolding lru_program three_sets
three_sets_evict = refl

-- An entry that is over the limit does not stay, even when it is the only one.
single_set : Exec (Calls ℕ × List ℕ)
single_set = do (c₁, calls) ← set bytes empty a (some 5); ok (calls, c₁.list)

single_set_evicts : single_set ≡ ok ((a, some 5) ∷ [], [])
unfolding lru_program single_set
single_set_evicts = refl

-- The channel of the clean-up is closed twice.
closed_twice : (do c ← close bytes empty; close bytes c) ≡ panic
unfolding lru_program
closed_twice = refl

-- The state after a write of `a` that is dated.
abbrev one : LruCache ℕ
one = record {
  list = 0 ∷ [];
  elems = point_at 0 (record { key = a; value = 1 }) unused;
  next = 1;
  items = (a, 0) ∷ [];
  expires = (a, pos 30) ∷ [];
  max_bytes = pos 4;
  used_bytes = pos 2;
  has_callback = true;
  cleanup_interval = minute;
  closed = false;
}

one_is_written : set_with_expiration bytes empty a (some 1) (pos 10) (pos 20) ≡ ok (one, [])
unfolding lru_program empty options
one_is_written = refl

one-IsReachable : Reachable bytes options one
unfolding new_lru_cache empty
one-IsReachable =
    stepped (created unused) (sets_with_expiration a 1 (pos 10) (pos 20) (one, []) one_is_written)

one-IsValid : IsValid one
one-IsValid = reachable-IsValid bytes options one one-IsReachable

reachable-IsValid_example : IsValid one
reachable-IsValid_example = reachable-IsValid bytes options one one-IsReachable

set-Evicted_example :
    (r : LruCache ℕ × Calls ℕ) × (set bytes one b (some 3) ≡ ok r)
    × Evicted one (Spec.set bytes (pos 4) (pos 2) b 3 (entries one)) r
set-Evicted_example = set-Evicted bytes one b 3 one-IsValid.linked one-IsValid.dated

is_limited : positive one.max_bytes ≡ true
unfolding positive
is_limited = refl

set-bound_example :
    (r : LruCache ℕ × Calls ℕ) × (dropped : List (LruEntry ℕ)) × (set bytes one b (some 3) ≡ ok r)
    × (dropped ++ oldest_first r.0
        ≡ reverse (record { key = b; value = 3 } ∷ Spec.remove b (entries one)))
    × (r.1 ≡ Spec.calls true dropped)
    × (r.0.used_bytes ≡ Spec.counted bytes (Spec.written bytes (pos 2) b 3 (entries one)) dropped)
    × ((before after : List (LruEntry ℕ)) (e : LruEntry ℕ)
        → dropped ≡ before ++ e ∷ after
        → ltb_ℤ (pos 4) (Spec.counted bytes (Spec.written bytes (pos 2) b 3 (entries one)) before)
          ≡ true)
    × ((r.0.list ≡ []) ⊎ (ltb_ℤ (pos 4) r.0.used_bytes ≡ false))
set-bound_example = set-bound bytes one b 3 one-IsValid is_limited

get-Spec_example :
    (
      entries (get bytes one a (pos 40)).0,
      (get bytes one a (pos 40)).1,
      (get bytes one a (pos 40)).2,
    )
    ≡ (if is_past (pos 40) (lookup a one.expires)
        then (Spec.remove a (entries one), none, Spec.calls_of true (Spec.find a (entries one)))
        else Spec.get a (entries one))
get-Spec_example = get-Spec bytes one a (pos 40) one-IsValid

set_with_expiration-date_example :
    set_with_expiration bytes one a (some 2) (pos 10) (pos 25)
    ≡ set bytes (date bytes one a (pos 10) (pos 25)) a (some 2)
set_with_expiration-date_example = set_with_expiration-date bytes one a (some 2) (pos 10) (pos 25)

visit_date : (key : Text) (t : ℤ) → IsIn key t one.expires → lookup key one.expires ≡ some t
unfolding lookup text_beq
visit_date _ _ here = refl
visit_date key t (later i) = elim i [ ]

visit-IsIn : (key : Text) (t : ℤ) → lookup key one.expires ≡ some t → IsIn key t one.expires
unfolding lookup
visit-IsIn key t h =
    let p : a ≡ key = ground (arith, text_eq.beq_iff a key) in
    let q : pos 30 ≡ t = ground (arith, text_eq.beq_iff a key) in
    subst (λ (k : Text). IsIn k t one.expires) p (subst (λ (u : ℤ). IsIn a u one.expires) q here)

visits : Visits one.expires one.expires
visits = record { sound = visit_date; complete = visit-IsIn }

cleanup_expired-Cleaned_example :
    Cleaned one
      (cleanup_expired bytes one.expires one (pos 40)).0
      (λ k. is_past (pos 40) (lookup k one.expires))
cleanup_expired-Cleaned_example =
    cleanup_expired-Cleaned bytes one.expires one (pos 40) one-IsValid.linked one-IsValid.dated
      visits
