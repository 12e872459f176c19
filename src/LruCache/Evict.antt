-- ===== src/LruCache/Evict.antt =====
-- `removeElement` and `evict` of pkg/store/lru.go: they keep the invariant, and `evict` gives up
-- the oldest entries, as many as it takes.
use cache_learning_notes.Base.{
  ℕ, zero, suc, ◌<◌, ◌≡◌, refl, List, [], ◌∷◌, ◌++◌, map, reverse, some, text_eq, arith, count,
  hit_self, inl, inr, Bool-cases, sym, ◌∙◌, ap, true, false, length, ok, count-append,
  length-append, ◌⊎◌,
}
use cache_learning_notes.Base.Int.{ℤ, pos, ◌-ℤ◌, wrap64, ltb_ℤ}
use cache_learning_notes.Layer.Cache.{Calls}
use cache_learning_notes.Layer.Model.{split_last}
use cache_learning_notes.LruCache.Cache.{
  LruEntry, LruCache, erase, back, remove_element, evict_back, evict_loop, over, entry_size,
}
use cache_learning_notes.LruCache.Lists.{erase_last, back-append}
use cache_learning_notes.LruCache.Linked.{erase-Linked}
use cache_learning_notes.LruCache.Spec.{calls, Trimmed, trim}
use mathlib.Core.List.{reverse-append, map-append}
use cache_learning_notes.LruCache.Model.{IsDated, IsLinked, oldest_first, Evicted, delete-IsDated}

module _ {V : Type 0} (size : V → ℕ) where
  pub remove_element-Linked :
      (c : LruCache V) (i : ℕ)
      → IsLinked c
      → IsDated c.items c.expires
      → 0 < count i c.list
      → IsLinked (remove_element size c i).0
        × IsDated (remove_element size c i).0.items (remove_element size c i).0.expires
  unfolding remove_element
  remove_element-Linked c i l d h =
      (erase-Linked l i h, delete-IsDated (c.elems i).key c.items c.expires d)

  evict_back-Linked :
      (c : LruCache V) (i : ℕ)
      → IsLinked c
      → IsDated c.items c.expires
      → 0 < count i c.list
      → IsLinked (evict_back size c i).0
        × IsDated (evict_back size c i).0.items (evict_back size c i).0.expires
  unfolding evict_back remove_element
  evict_back-Linked c i l d h =
      (erase-Linked l i h, delete-IsDated (c.elems i).key c.items c.expires d)

  oldest_first_last :
      (c : LruCache V) (ys : List ℕ) (i : ℕ)
      → c.list ≡ ys ++ i ∷ []
      → oldest_first c ≡ c.elems i ∷ reverse (map c.elems ys)
  oldest_first_last c ys i e =
      ap (λ (xs : List ℕ). reverse (map c.elems xs)) e
      ∙ rw (map-append c.elems ys (i ∷ []), reverse-append (map c.elems ys) (c.elems i ∷ []))

  trim_done :
      (max used : ℤ) (s : List (LruEntry V))
      → (s ≡ []) ⊎ (ltb_ℤ max used ≡ false)
      → trim size max used s ≡ record { kept = s; used = used; dropped = [] }
  unfolding trim
  trim_done max used [] h = refl
  trim_done max used (e ∷ s) (inl h) = absurd (ground arith)
  trim_done max used (e ∷ s) (inr h) = rw h

  evict_loop_done :
      (n : ℕ) (c : LruCache V) → over size c ≡ false → evict_loop size n c ≡ ok (c, [])
  unfolding evict_loop
  evict_loop_done zero c h = rw h
  evict_loop_done (suc n) c h = rw (evict_loop, h)

  pub trim_more :
      (max used : ℤ) (e : LruEntry V) (s : List (LruEntry V))
      → ltb_ℤ max used ≡ true
      → (r : Trimmed V) × (r
          ≡ trim size max
              (wrap64 (wrap64 (used -ℤ pos (entry_size size e)) -ℤ pos (entry_size size e)))
              s)
        × (trim size max used (e ∷ s) ≡ record r { dropped = e ∷ r.dropped })
  unfolding trim
  trim_more max used e s h = (_, refl, rw h)

  empty_list : {A : Type 0} (xs : List A) → length xs ≡ 0 → xs ≡ []
  empty_list [] h = refl
  empty_list (x ∷ xs) h = absurd (omega arith)

  done_reason :
      (c : LruCache V)
      → over size c ≡ false
      → (c.list ≡ []) ⊎ (ltb_ℤ c.max_bytes c.used_bytes ≡ false)
  done_reason c h = elim (Bool-cases (ltb_ℤ c.max_bytes c.used_bytes)) [
    | inl m ↦ inl (empty_list c.list (ground arith))
    | inr m ↦ inr m
  ]

  empty_entries : (c : LruCache V) → c.list ≡ [] → oldest_first c ≡ []
  empty_entries c h = ap (λ (xs : List ℕ). reverse (map c.elems xs)) h

  -- A loop that has ended.
  done-Evicted :
      (c : LruCache V)
      → over size c ≡ false
      → IsLinked c
      → IsDated c.items c.expires
      → Evicted c (trim size c.max_bytes c.used_bytes (oldest_first c)) (c, [])
  unfolding calls
  done-Evicted c h l d =
      let why =
        elim (done_reason c h)
          as (λ _. (oldest_first c ≡ []) ⊎ (ltb_ℤ c.max_bytes c.used_bytes ≡ false)) [
            | inl e ↦ inl (empty_entries c e)
            | inr e ↦ inr e
          ] in
      let t = trim_done c.max_bytes c.used_bytes (oldest_first c) why in
      record {
        linked = l;
        dated = d;
        kept = rw t;
        used = rw t;
        called = rw t;
        same_max = refl;
        same_callback = refl;
      }

  -- A round of the loop, for the element at the back, and then the others.
  round-Evicted :
      (c : LruCache V) (ys : List ℕ) (i : ℕ) (r : LruCache V × Calls V)
      → c.list ≡ ys ++ i ∷ []
      → count i ys ≡ 0
      → ltb_ℤ c.max_bytes c.used_bytes ≡ true
      → (let c' = (evict_back size c i).0 in
          Evicted c' (trim size c'.max_bytes c'.used_bytes (oldest_first c')) r)
      → Evicted c
          (trim size c.max_bytes c.used_bytes (oldest_first c))
          (r.0, (evict_back size c i).1 ++ r.1)
  unfolding calls evict_back remove_element
  round-Evicted c ys i r e u h v =
      let es : LruEntry V = c.elems i in
      let rest : erase i c.list ≡ ys = ap (erase i) e ∙ erase_last i ys u in
      let (t, t_eq, t_law) = trim_more c.max_bytes c.used_bytes es (reverse (map c.elems ys)) h in
      let all : trim size c.max_bytes c.used_bytes (oldest_first c)
          ≡ record t { dropped = es ∷ t.dropped } =
        ap (trim size c.max_bytes c.used_bytes) (oldest_first_last c ys i e) ∙ t_law in
      let then_eq =
        ap
          (λ (xs : List ℕ).
            trim size c.max_bytes
              (wrap64
                (wrap64 (c.used_bytes -ℤ pos (entry_size size es)) -ℤ pos (entry_size size es)))
              (reverse (map c.elems xs)))
          rest in
      let w = then_eq ∙ sym t_eq in
      record {
        linked = v.linked;
        dated = v.dated;
        kept = v.kept ∙ rw (w, all);
        used = v.used ∙ rw (w, all);
        called = rw (v.called, w, all);
        same_max = v.same_max;
        same_callback = v.same_callback;
      }

  last_element :
      (n : ℕ) (c : LruCache V) (ys : List ℕ) (i : ℕ)
      → c.list ≡ ys ++ i ∷ []
      → length c.list ≡ suc n
      → IsLinked c
      → (count i ys ≡ 0)
        × (0 < count i c.list)
        × (length (evict_back size c i).0.list ≡ n)
        × (back c.list ≡ some i)
  unfolding count evict_back remove_element
  last_element n c ys i q e l =
      let whole = ap (count i) q ∙ count-append i ys (i ∷ []) in
      let own = hit_self i in
      let most = l.once i in
      let u : count i ys ≡ 0 = omega arith in
      let rest : erase i c.list ≡ ys = ap (erase i) q ∙ erase_last i ys u in
      let long = ap (λ (xs : List ℕ). length xs) q ∙ length-append ys (i ∷ []) in
      let same = ap (λ (xs : List ℕ). length xs) rest in
      (u, omega arith, omega arith, ap back q ∙ back-append ys i)

  evict_loop_more :
      (n : ℕ) (c : LruCache V) (i : ℕ) (r : LruCache V × Calls V)
      → over size c ≡ true
      → back c.list ≡ some i
      → evict_loop size n (evict_back size c i).0 ≡ ok r
      → evict_loop size (suc n) c ≡ ok (r.0, (evict_back size c i).1 ++ r.1)
  unfolding evict_loop
  evict_loop_more n c i r h b e = rw (evict_loop, h, b, e)

  pub evict_loop_lem :
      (n : ℕ) (c : LruCache V)
      → length c.list ≡ n
      → IsLinked c
      → IsDated c.items c.expires
      → (r : LruCache V × Calls V) × (evict_loop size n c ≡ ok r)
        × Evicted c (trim size c.max_bytes c.used_bytes (oldest_first c)) r
  evict_loop_lem zero c e l d =
      let h : over size c ≡ false = ground arith in
      ((c, []), evict_loop_done zero c h, done-Evicted c h l d)
  evict_loop_lem (suc n) c e l d = elim (Bool-cases (over size c)) [
    | inl h ↦
        let (ys, i, q) = split_last c.list (omega arith) in
        let (once, inside, n_eq, at_back) = last_element n c ys i q e l in
        let (l', d') = evict_back-Linked c i l d inside in
        let (r, ran, v) = evict_loop_lem n (evict_back size c i).0 n_eq l' d' in
        (
          (r.0, (evict_back size c i).1 ++ r.1),
          evict_loop_more n c i r h at_back ran,
          round-Evicted c ys i r q once (ground arith) v,
        )
    | inr h ↦ ((c, []), evict_loop_done (suc n) c h, done-Evicted c h l d)
  ]
