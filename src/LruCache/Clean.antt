-- ===== src/LruCache/Clean.antt =====
-- `cleanupExpired` of pkg/store/lru.go: whatever the order in which the range loop visits the
-- expiration times, exactly the keys whose time has passed go.
use cache_learning_notes.Base.{
  ℕ, ◌≡◌, refl, List, [], ◌∷◌, none, some, Text, text_eq, arith, ◌∙◌, sym, subst, ap, Bool, true,
  false, ◌&&◌, ◌||◌, if◌then◌else◌, inl, inr, Bool-cases, Option-cases, ◌=?◌,
}
use cache_learning_notes.Base.Dict.{lookup}
use cache_learning_notes.Base.Int.{ℤ, ltb_ℤ}
use cache_learning_notes.LruCache.Cache.{LruCache, delete_key, cleanup_expired, is_past}
use cache_learning_notes.LruCache.Model.{IsDated, IsLinked}
use cache_learning_notes.LruCache.Reads.{delete_key-Deleted}

-- The expiration time of a key is among those that the loop visits.
pub data IsIn (key : Text) (t : ℤ) : List (Text × ℤ) → Type 0 where
  here : {visits : List (Text × ℤ)} → IsIn key t ((key, t) ∷ visits)
  later :
      {visit : Text × ℤ} {visits : List (Text × ℤ)}
      → IsIn key t visits
      → IsIn key t (visit ∷ visits)

-- Each entry of the map is visited, and nothing else.
pub record Visits (expires visits : List (Text × ℤ)) : Type 0 where
  pub sound : (key : Text) (t : ℤ) → IsIn key t visits → lookup key expires ≡ some t
  pub complete : (key : Text) (t : ℤ) → lookup key expires ≡ some t → IsIn key t visits

unfoldable pub is_cleaned : Text → List (Text × ℤ) → ℤ → Bool
is_cleaned k [] now = false
is_cleaned k ((key, t) ∷ visits) now = ((key =? k) && ltb_ℤ t now) || is_cleaned k visits now

is_cleaned-In :
    (k : Text) (t : ℤ) (visits : List (Text × ℤ)) (now : ℤ)
    → IsIn k t visits
    → ltb_ℤ t now ≡ true
    → is_cleaned k visits now ≡ true
unfolding is_cleaned
is_cleaned-In k t _ now here h = ground (arith, text_eq.beq_iff k k)
is_cleaned-In k t _ now (later {visit = (key, u)} {visits} i) h =
    let rest = is_cleaned-In k t visits now i h in ground (arith, rest)

is_cleaned_reason :
    (k : Text) (visits : List (Text × ℤ)) (now : ℤ)
    → is_cleaned k visits now ≡ true
    → (t : ℤ) × IsIn k t visits × (ltb_ℤ t now ≡ true)
unfolding is_cleaned
is_cleaned_reason k [] now h = absurd (ground arith)
is_cleaned_reason k ((key, t) ∷ visits) now h = elim (Bool-cases ((key =? k) && ltb_ℤ t now)) [
  | inl e ↦
      let p : key ≡ k = ground (arith, text_eq.beq_iff key k) in
      (t, subst (λ (x : Text). IsIn x t ((key, t) ∷ visits)) p here, ground arith)
  | inr e ↦ let (u, i, p) = is_cleaned_reason k visits now (ground arith) in (u, later i, p)
]

-- With the visits of the loop this is the test of the expiration time.
is_cleaned_lem :
    (k : Text) (expires visits : List (Text × ℤ)) (now : ℤ)
    → Visits expires visits
    → is_cleaned k visits now ≡ is_past now (lookup k expires)
is_cleaned_lem k expires visits now v = elim (Option-cases (lookup k expires)) [
  | inl h ↦ elim (Bool-cases (is_cleaned k visits now)) [
    | inl e ↦
        let (t, i, p) = is_cleaned_reason k visits now e in absurd (ground (arith, v.sound k t i))
    | inr e ↦ rw (e, h)
  ]
  | inr (t, h) ↦ elim (Bool-cases (is_cleaned k visits now)) [
    | inl e ↦
        let (u, i, p) = is_cleaned_reason k visits now e in
        let same : is_past now (lookup k expires) ≡ is_past now (some u) =
          ap (is_past now) (v.sound k u i) in
        e ∙ sym (same ∙ p)
    | inr e ↦ elim (Bool-cases (ltb_ℤ t now)) [
      | inl p ↦ is_cleaned-In k t visits now (v.complete k t h) p ∙ sym (ap (is_past now) h ∙ p)
      | inr p ↦ e ∙ sym (ap (is_past now) h ∙ p)
    ]
  ]
]

module _ {V : Type 0} where
  pub record Cleaned (c c' : LruCache V) (gone : Text → Bool) : Type 0 where
    pub linked : IsLinked c'
    pub dated : IsDated c'.items c'.expires
    pub items : (k : Text) → lookup k c'.items ≡ (if gone k then none else lookup k c.items)
    pub expires : (k : Text) → lookup k c'.expires ≡ (if gone k then none else lookup k c.expires)
    pub same_elems : c'.elems ≡ c.elems

module _ {V : Type 0} (size : V → ℕ) where
  clean_past :
      (visits : List (Text × ℤ)) (key : Text) (t : ℤ) (c : LruCache V) (now : ℤ)
      → ltb_ℤ t now ≡ true
      → (cleanup_expired size ((key, t) ∷ visits) c now).0
        ≡ (cleanup_expired size visits (delete_key size c key).0 now).0
  unfolding cleanup_expired
  clean_past visits key t c now h = rw (cleanup_expired, h)

  clean_fresh :
      (visits : List (Text × ℤ)) (key : Text) (t : ℤ) (c : LruCache V) (now : ℤ)
      → ltb_ℤ t now ≡ false
      → (cleanup_expired size ((key, t) ∷ visits) c now).0 ≡ (cleanup_expired size visits c now).0
  unfolding cleanup_expired
  clean_fresh visits key t c now h = rw (cleanup_expired, h)

  clean_each :
      (visits : List (Text × ℤ)) (c : LruCache V) (now : ℤ)
      → IsLinked c
      → IsDated c.items c.expires
      → Cleaned c (cleanup_expired size visits c now).0 (λ k. is_cleaned k visits now)
  unfolding cleanup_expired is_cleaned
  clean_each [] c now l d = record {
    linked = l;
    dated = d;
    items = λ k. refl;
    expires = λ k. refl;
    same_elems = refl;
  }
  clean_each ((key, t) ∷ visits) c now l d = elim (Bool-cases (ltb_ℤ t now)) [
    | inl h ↦
        let (w, _, _) = delete_key-Deleted size c key l d in
        let r = clean_each visits (delete_key size c key).0 now w.linked w.dated in
        subst (λ (c' : LruCache V). Cleaned c c' (λ k. is_cleaned k ((key, t) ∷ visits) now))
          (sym (clean_past visits key t c now h))
          record {
            linked = r.linked;
            dated = r.dated;
            items = λ k. ground (arith, r.items k, w.items k);
            expires = λ k. ground (arith, r.expires k, w.expires k);
            same_elems = r.same_elems ∙ w.same_elems;
          }
    | inr h ↦
        let r = clean_each visits c now l d in
        subst (λ (c' : LruCache V). Cleaned c c' (λ k. is_cleaned k ((key, t) ∷ visits) now))
          (sym (clean_fresh visits key t c now h))
          record {
            linked = r.linked;
            dated = r.dated;
            items = λ k. ground (arith, r.items k);
            expires = λ k. ground (arith, r.expires k);
            same_elems = r.same_elems;
          }
  ]

  -- On a cache whose list, items and expiration times belong together, cleanupExpired, whatever the
  -- order of its range loop, takes out exactly the keys whose time has passed; the other keys keep
  -- their elements and their times, and the invariant holds.
  pub cleanup_expired-Cleaned :
      (visits : List (Text × ℤ)) (c : LruCache V) (now : ℤ)
      → IsLinked c
      → IsDated c.items c.expires
      → Visits c.expires visits
      → Cleaned c (cleanup_expired size visits c now).0 (λ k. is_past now (lookup k c.expires))
  cleanup_expired-Cleaned visits c now l d v =
      let r = clean_each visits c now l d in
      let gone = λ (k : Text). is_cleaned_lem k c.expires visits now v in
      record {
        linked = r.linked;
        dated = r.dated;
        items = λ k. ground (arith, r.items k, gone k);
        expires = λ k. ground (arith, r.expires k, gone k);
        same_elems = r.same_elems;
      }
