-- ===== src/LruCache/Methods.antt =====
-- What a caller of `Set` and `Get` of pkg/store/lru.go sees.
use cache_learning_notes.Base.{
  ℕ, ◌≡◌, refl, List, [], ◌∷◌, ◌++◌, reverse, none, some, Text, text_eq, arith, ◌∙◌, sym, subst,
  map, ap, true, false, if◌then◌else◌, inl, inr, ◌⊎◌, Bool-cases, ok,
}
use cache_learning_notes.Base.Dict.{lookup}
use cache_learning_notes.Base.Int.{ℤ, pos, ltb_ℤ, ◌-ℤ◌, wrap64}
use cache_learning_notes.Layer.Cache.{Calls, positive}
use cache_learning_notes.LruCache.Cache.{LruEntry, LruCache, entry_size, set, get, is_past}
use mathlib.Core.List.{reverse-reverse}
use cache_learning_notes.LruCache.Evict.{trim_more}
use cache_learning_notes.LruCache.Model.{entries, oldest_first}
use cache_learning_notes.LruCache.Reachable.{IsValid}
use cache_learning_notes.LruCache.Reads.{get_past, get_fresh}
use cache_learning_notes.LruCache.Spec
use cache_learning_notes.LruCache.Spec.{Trimmed}
use cache_learning_notes.LruCache.Writes.{set-Evicted}

nothing_before : {A : Type 0} (before after : List A) (x : A) → [] ≡ before ++ x ∷ after → ⊥
nothing_before [] after x q = ground (arith, q)
nothing_before (y ∷ before) after x q = ground (arith, q)

module _ {V : Type 0} (size : V → ℕ) where
  -- The entries that go are the oldest, as many as it takes: each goes while the bytes that are
  -- counted are over the limit, and none goes any more when they are within it.
  record Within (max used : ℤ) (s : List (LruEntry V)) (t : Trimmed V) : Type 0 where
    split : t.dropped ++ t.kept ≡ s
    count : t.used ≡ Spec.counted size used t.dropped
    bound : (t.kept ≡ []) ⊎ (ltb_ℤ max t.used ≡ false)
    needed :
        (before after : List (LruEntry V)) (e : LruEntry V)
        → t.dropped ≡ before ++ e ∷ after
        → ltb_ℤ max (Spec.counted size used before) ≡ true

  -- The first of the entries that go, and then the others.
  first-needed :
      (max used : ℤ) (e : LruEntry V) (s : List (LruEntry V)) (t : Trimmed V)
      → ltb_ℤ max used ≡ true
      → Within max
          (wrap64 (wrap64 (used -ℤ pos (entry_size size e)) -ℤ pos (entry_size size e)))
          s
          t
      → (before after : List (LruEntry V)) (x : LruEntry V) → e ∷ t.dropped ≡ before ++ x ∷ after
      → ltb_ℤ max (Spec.counted size used before) ≡ true
  unfolding Spec.counted
  first-needed max used e s t h w [] after x q = h
  first-needed max used e s t h w (d ∷ before) after x q =
      let same : e ≡ d = cc q in
      let rest : t.dropped ≡ before ++ x ∷ after = cc q in rw⁻¹ same (w.needed before after x rest)

  trim-Within :
      (max : ℤ) (s : List (LruEntry V)) (used : ℤ) → Within max used s (Spec.trim size max used s)
  unfolding Spec.trim Spec.counted
  trim-Within max [] used = record {
    split = refl;
    count = refl;
    bound = inl refl;
    needed = λ before after e q. absurd (nothing_before before after e q);
  }
  trim-Within max (e ∷ s) used = elim (Bool-cases (ltb_ℤ max used)) [
    | inl h ↦
        let less = wrap64 (wrap64 (used -ℤ pos (entry_size size e)) -ℤ pos (entry_size size e)) in
        let (r, r_eq, law) = trim_more size max used e s h in
        let w =
          subst (λ (t : Trimmed V). Within max less s t) (sym r_eq) (trim-Within max s less) in
        subst (λ (t : Trimmed V). Within max used (e ∷ s) t) (sym law)
          record {
            split = rw w.split;
            count = w.count;
            bound = w.bound;
            needed = first-needed max used e s r h w;
          }
    | inr h ↦ rw h record {
      split = refl;
      count = refl;
      bound = inr h;
      needed = λ before after e q. absurd (nothing_before before after e q);
    }
  ]

  set-Within :
      (max used : ℤ) (key : Text) (value : V) (s : List (LruEntry V))
      → positive max ≡ true
      → Within max
          (Spec.written size used key value s)
          (reverse (record { key = key; value = value } ∷ Spec.remove key s))
          (Spec.set size max used key value s)
  unfolding Spec.set Spec.evict positive
  set-Within max used key value s p = rw p (trim-Within max _ (Spec.written size used key value s))

  no_elements : (elems : ℕ → LruEntry V) (xs : List ℕ) → reverse (map elems xs) ≡ [] → xs ≡ []
  no_elements elems [] h = refl
  no_elements elems (x ∷ xs) h =
      absurd (ground (arith, sym (reverse-reverse (map elems (x ∷ xs))) ∙ ap reverse h))

  -- Set of a value, on a valid cache with a limit above 0, does not panic. The entries, with the new
  -- one at the front in place of the old one of its key, lose some of the oldest, in that order, and
  -- the callback sees each of them. The bytes that are counted are those after the write, less twice
  -- the bytes of each entry that went. Each of these went while the count was over the limit; then
  -- no entry is left, or the count is at most the limit.
  pub set-bound :
      (c : LruCache V) (key : Text) (value : V)
      → IsValid c
      → positive c.max_bytes ≡ true
      → (r : LruCache V × Calls V) × (dropped : List (LruEntry V)) × (set size c key (some value)
          ≡ ok r)
        × (dropped ++ oldest_first r.0
            ≡ reverse (record { key = key; value = value } ∷ Spec.remove key (entries c)))
        × (r.1 ≡ Spec.calls c.has_callback dropped)
        × (r.0.used_bytes
            ≡ Spec.counted size (Spec.written size c.used_bytes key value (entries c)) dropped)
        × ((before after : List (LruEntry V)) (e : LruEntry V)
            → dropped ≡ before ++ e ∷ after
            → ltb_ℤ c.max_bytes
                (Spec.counted size (Spec.written size c.used_bytes key value (entries c)) before)
              ≡ true)
        × ((r.0.list ≡ []) ⊎ (ltb_ℤ c.max_bytes r.0.used_bytes ≡ false))
  set-bound c key value v p =
      let (r, ran, e) = set-Evicted size c key value v.linked v.dated in
      let w = set-Within c.max_bytes c.used_bytes key value (entries c) p in
      (
        r,
        (Spec.set size c.max_bytes c.used_bytes key value (entries c)).dropped,
        ran,
        rw (e.kept, w.split),
        e.called,
        e.used ∙ w.count,
        w.needed,
        elim w.bound [
          | inl h ↦ inl (no_elements r.0.elems r.0.list (e.kept ∙ h))
          | inr h ↦ inr (rw (e.used, h))
        ],
      )

  -- Get on a valid cache: a key whose expiration time has passed answers nothing and its entry, if
  -- there is one, goes, which the callback sees; otherwise Get answers with the value of the key's
  -- entry and moves it to the front, or answers nothing and leaves the entries alone if there is none.
  pub get-Spec :
      (c : LruCache V) (key : Text) (now : ℤ)
      → IsValid c
      → (entries (get size c key now).0, (get size c key now).1, (get size c key now).2) ≡ (
          if is_past now (lookup key c.expires)
          then (
            Spec.remove key (entries c),
            none,
            Spec.calls_of c.has_callback (Spec.find key (entries c)),
          )
          else Spec.get key (entries c))
  get-Spec c key now v = elim (Bool-cases (is_past now (lookup key c.expires))) [
    | inl h ↦
        let (d, none_eq, called) = get_past size c key now v.linked v.dated h in
        rw (h, d.rest, none_eq, called)
    | inr h ↦ let (_, _, _, e) = get_fresh size c key now v.linked h in rw h e
  ]
