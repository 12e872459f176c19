-- ===== src/LruCache/Model.antt =====
-- The invariant of `LruCache` of pkg/store/lru.go, and what a run of `evict` leaves.
use cache_learning_notes.Base.{ℕ, ◌≡◌, List, map, reverse, some, Text, text_eq, arith, ◌∙◌, ap}
use cache_learning_notes.Base.Dict.{lookup, delete, lookup-delete}
use cache_learning_notes.Base.Int.{ℤ}
use cache_learning_notes.Layer.Cache.{Calls}
use cache_learning_notes.LruCache.Cache.{LruEntry, LruCache}
use cache_learning_notes.LruCache.Linked.{Linked}
use cache_learning_notes.LruCache.Spec.{calls, Trimmed}

-- An expiration time belongs to a key that the cache holds.
abbrev pub IsDated : List (Text × ℕ) → List (Text × ℤ) → Type 0
IsDated items expires =
    (key : Text) (t : ℤ) → lookup key expires ≡ some t → (i : ℕ) × (lookup key items ≡ some i)

module _ {V : Type 0} where
  abbrev pub IsLinked : LruCache V → Type 0
  IsLinked c = Linked c.list c.elems c.next c.items

  -- The entries, the most recently used first.
  abbrev pub entries : LruCache V → List (LruEntry V)
  entries c = map c.elems c.list

  abbrev pub oldest_first : LruCache V → List (LruEntry V)
  oldest_first c = reverse (entries c)

  -- What a run of `evict` leaves, told by `trim`.
  pub record Evicted (c : LruCache V) (t : Trimmed V) (r : LruCache V × Calls V) : Type 0 where
    pub linked : IsLinked r.0
    pub dated : IsDated r.0.items r.0.expires
    pub kept : oldest_first r.0 ≡ t.kept
    pub used : r.0.used_bytes ≡ t.used
    pub called : r.1 ≡ calls c.has_callback t.dropped
    pub same_max : r.0.max_bytes ≡ c.max_bytes
    pub same_callback : r.0.has_callback ≡ c.has_callback

  -- The same limit and callback, and the same result.
  pub like-Evicted :
      (c c' : LruCache V) (s s' : List (LruEntry V)) (f : List (LruEntry V) → Trimmed V)
      (r : LruCache V × Calls V)
      → c'.max_bytes ≡ c.max_bytes
      → c'.has_callback ≡ c.has_callback
      → s' ≡ s
      → Evicted c' (f s') r
      → Evicted c (f s) r
  like-Evicted c c' s s' f r m h e v = record {
    linked = v.linked;
    dated = v.dated;
    kept = v.kept ∙ ap (λ (x : List (LruEntry V)). (f x).kept) e;
    used = v.used ∙ ap (λ (x : List (LruEntry V)). (f x).used) e;
    called = v.called ∙ rw h (ap (λ (x : List (LruEntry V)). calls c.has_callback (f x).dropped) e);
    same_max = v.same_max ∙ m;
    same_callback = v.same_callback ∙ h;
  }

pub delete-IsDated :
    (key : Text) (items : List (Text × ℕ)) (expires : List (Text × ℤ))
    → IsDated items expires
    → IsDated (delete key items) (delete key expires)
delete-IsDated key items expires h k t e =
    let was : lookup k expires ≡ some t = ground (arith, lookup-delete key k expires) in
    let (i, f) = h k t was in
    (i, ground (arith, lookup-delete key k expires, lookup-delete key k items))
