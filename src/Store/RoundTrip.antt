-- ===== src/Store/RoundTrip.antt =====
-- Sequences of calls of `Get`, `SetWithExpiration` and `Delete` of pkg/store/lru2.go.
use cache_learning_notes.Base.{
  ℕ, ◌≡◌, ◌≢◌, Bool, List, Option, none, some, true, Text, Exec, ok, if◌then◌else◌, refl, ap, ◌∙◌,
  arith, ==_refl,
}
use cache_learning_notes.Base.Int.{ℤ}
use cache_learning_notes.Layer.Cache.{Node, Value, Calls, positive}
use cache_learning_notes.Layer.Reads.{victim}
use cache_learning_notes.Store.Bucket.{expiration_time, is_some, past}
use cache_learning_notes.Store.Answer.{answer, moves}
use cache_learning_notes.Store.Hash.{bucket_index}
use cache_learning_notes.Store.Invariant.{Views, IsStore, shown, update, shown-update, Stepped}
use cache_learning_notes.Store.Methods.{
  s₁, s₂, set_on_store_lem, get_on_store_lem, delete_on_store_lem,
}
use cache_learning_notes.Store.Model.{entry, valid, visible, or_else}
use cache_learning_notes.Store.Ops
use cache_learning_notes.Store.Ops.{Store}

-- The value of an entry that has not expired.
abbrev pub fresh : {V : Type 0} → ℤ → Option (Node V) → Option (Value V)
fresh now none = none
fresh now (some e) = if past now e.expire_at then none else some e.v

module _ {V : Type 0} (s : Store V) (size₁ size₂ : ℕ) (view : Views V)
    (store : IsStore s size₁ size₂ view) where
  answer-fresh : (now : ℤ) (o p : Option (Node V)) → answer now now o p ≡ fresh now (or_else o p)
  unfolding answer
  answer-fresh now none none = refl
  answer-fresh now none (some e) = ground arith
  answer-fresh now (some e) p = refl

  pub updated_at :
      (key : Text) (v : List (Node V) × List (Node V)) (mask : ℕ)
      → mask ≡ s.mask
      → update (bucket_index s.mask key) v view (bucket_index mask key) ≡ v
  updated_at key v mask h = rw (h, ==_refl (bucket_index s.mask key))

  pub shown_after :
      {R : Type 0} {run : Exec (Store V × R)} {P : List (Node V) → List (Node V) → R → Type 0}
      (q key : Text) (w : Stepped s size₁ size₂ view key run P)
      → visible q w.first w.second
        ≡ visible q (view (bucket_index s.mask key)).0 (view (bucket_index s.mask key)).1
      → shown w.after (update (bucket_index s.mask key) (w.first, w.second) view) q ≡ shown s view q
  shown_after q key w h =
      let i = bucket_index s.mask key in
      let v : List (Node V) × List (Node V) = (w.first, w.second) in
      ap
        (λ m.
          visible q (update i v view (bucket_index m q)).0 (update i v view (bucket_index m q)).1)
        w.mask_kept
      ∙ shown-update s view i v q h

  -- A read of the key that the step before worked on.
  reread :
      {R : Type 0} {run : Exec (Store V × R)} {P : List (Node V) → List (Node V) → R → Type 0}
      (key : Text) (now₁ now₂ : ℤ) (w : Stepped s size₁ size₂ view key run P)
      → (s'' : Store V) × (calls : Calls V) × (Ops.get w.after key now₁ now₂
          ≡ ok (s'', (answer now₁ now₂ (valid key w.first) (valid key w.second), calls)))
  reread key now₁ now₂ w =
      let v : List (Node V) × List (Node V) = (w.first, w.second) in
      let g = get_on_store_lem w.after size₁ size₂ _ w.well_formed key now₁ now₂ in
      let there = updated_at key v w.after.mask w.mask_kept in
      let same = ap (λ z. answer now₁ now₂ (valid key z.0) (valid key z.1)) there in
      (
        g.after,
        g.result.1,
        g.ran ∙ ap (λ z. ok (g.after, (z, g.result.1))) (g.holds.answered ∙ same),
      )

  -- `Get` on a well-formed store, with one reading of the clock: it does not panic, it answers with
  -- the value that the store shows if that has not expired, and leaves a well-formed store. An entry
  -- that it answered with is still shown, and the entries of the other keys are, except for that of
  -- the node that a full second level loses if a fresh entry of the first level is promoted.
  pub get-shown :
      (key : Text) (now : ℤ)
      → (s' : Store V) × (view' : Views V) × (calls : Calls V) × (Ops.get s key now now
          ≡ ok (s', (fresh now (shown s view key), calls)))
        × IsStore s' size₁ size₂ view'
        × ((v : Value V)
            → fresh now (shown s view key) ≡ some v
            → shown s' view' key ≡ shown s view key)
        × ((q : Text)
            → q ≢ key
            → (moves now (valid key (view (bucket_index s.mask key)).0) ≡ true
                → (x : Node V) → victim size₂ key (view (bucket_index s.mask key)).1 ≡ some x
                → x.k ≢ q)
            → shown s' view' q ≡ shown s view q)
  get-shown key now =
      let g = get_on_store_lem s size₁ size₂ view store key now now in
      let same =
        answer-fresh now (valid key (s₁ s size₁ size₂ view store key))
          (valid key (s₂ s size₁ size₂ view store key)) in
      (
        g.after,
        update (bucket_index s.mask key) (g.first, g.second) view,
        g.result.1,
        g.ran ∙ ap (λ z. ok (g.after, (z, g.result.1))) (g.holds.answered ∙ same),
        g.well_formed,
        λ v h. shown_after key _ g (g.holds.got.kept v (same ∙ h)),
        λ q apart safe. shown_after q _ g (g.holds.got.others q apart safe),
      )

  -- In a well-formed store, a write whose expiration time is above 0, and a read of the key: the
  -- answer is the value that was written, unless the clock has reached that time. Neither panics.
  pub set-get :
      (key : Text) (value : Value V) (expiration now now₁ now₂ : ℤ)
      → positive (expiration_time now expiration) ≡ true
      → (s' : Store V) × (s'' : Store V) × (calls : Calls V) × (calls' : Calls V)
        × (Ops.set_with_expiration s key value expiration now ≡ ok (s', calls))
        × (Ops.get s' key now₁ now₂
            ≡ ok (
              s'',
              (if past now₁ (expiration_time now expiration) then none else some value, calls'),
            ))
  unfolding answer
  set-get key value expiration now now₁ now₂ alive =
      let w = set_on_store_lem s size₁ size₂ view store key value expiration now in
      let (s'', calls', ran) = reread key now₁ now₂ w in
      let e = expiration_time now expiration in
      let there : valid key w.first ≡ some (entry key value e) = w.holds.written ∙ rw alive in
      (w.after, s'', w.result, calls', w.ran, ran ∙ rw there)

  -- In a well-formed store, a deletion, which says whether the key was shown, and a read of the
  -- key, which finds nothing, whatever the clock says. Neither panics.
  pub delete-get :
      (key : Text) (now₁ now₂ : ℤ)
      → (s' : Store V) × (s'' : Store V) × (calls : Calls V) × (calls' : Calls V) × (Ops.delete s
            key
          ≡ ok (s', (is_some (shown s view key), calls)))
        × (Ops.get s' key now₁ now₂ ≡ ok (s'', (none, calls')))
  unfolding answer
  delete-get key now₁ now₂ =
      let w = delete_on_store_lem s size₁ size₂ view store key in
      let (s'', calls', ran) = reread key now₁ now₂ w in
      (
        w.after,
        s'',
        w.result.1,
        calls',
        w.ran ∙ ap (λ z. ok (w.after, (z, w.result.1))) w.holds.told,
        ran ∙ rw (w.holds.gone₁, w.holds.gone₂),
      )

  -- The same, with the store that the read leaves.
  pub forgotten :
      (key : Text) (now₁ now₂ : ℤ)
      → (s' : Store V) × (s'' : Store V) × (view' : Views V) × (view'' : Views V) × (r : Bool
          × Calls V)
        × (calls' : Calls V) × (Ops.delete s key ≡ ok (s', r))
        × IsStore s' size₁ size₂ view'
        × (Ops.get s' key now₁ now₂ ≡ ok (s'', (none, calls')))
        × IsStore s'' size₁ size₂ view''
  unfolding answer
  forgotten key now₁ now₂ =
      let w = delete_on_store_lem s size₁ size₂ view store key in
      let g = get_on_store_lem w.after size₁ size₂ _ w.well_formed key now₁ now₂ in
      let v : List (Node V) × List (Node V) = (w.first, w.second) in
      let there = updated_at key v w.after.mask w.mask_kept in
      let same = ap (λ z. answer now₁ now₂ (valid key z.0) (valid key z.1)) there in
      let nothing : answer now₁ now₂ (valid key w.first) (valid key w.second) ≡ none =
        rw (w.holds.gone₁, w.holds.gone₂) in
      (
        w.after,
        g.after,
        _,
        _,
        w.result,
        g.result.1,
        w.ran,
        w.well_formed,
        g.ran ∙ ap (λ z. ok (g.after, (z, g.result.1))) (g.holds.answered ∙ same ∙ nothing),
        g.well_formed,
      )
