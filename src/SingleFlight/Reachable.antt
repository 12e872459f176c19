-- ===== src/SingleFlight/Reachable.antt =====
-- The states that goroutines in `Do` of internal/singleflight/singleflight.go reach.
use cache_learning_notes.Base.{
  ℕ, ◌≡◌, ◌⊎◌, refl, ap, ◌∙◌, subst, inl, inr, some, Option-cases, Text, text_eq, arith,
}
use cache_learning_notes.Base.Dict.{lookup}
use cache_learning_notes.SingleFlight.Step.{
  Call, ready, creating, running, finished, waiting, returned, Group, Step, load_hit, load_miss,
  store, run, clean, wake, init, Reach, start, later, at_pc,
}
use cache_learning_notes.SingleFlight.Ran.{run-Inv}
use cache_learning_notes.SingleFlight.Stored.{store-Inv}
use cache_learning_notes.SingleFlight.Invariant.{
  Made, Fits, Inv, deleted_lem, Made-Kept, quiet, Inv-quiet,
}

module _ {R : Type 0} where
  Step-Inv : {s s' : Group R} → Step s s' → Inv s → Inv s'
  Step-Inv {s} (load_hit t key c at_p found) inv =
      Inv-quiet s _ t (ready key) (waiting key c) inv refl refl refl at_p refl
        (Made-Kept (quiet s _ t refl refl) (inv.known key c found)) (λ k d h. h)
  Step-Inv {s} (load_miss t key at_p missed) inv =
      Inv-quiet s _ t (ready key) (creating key) inv refl refl refl at_p refl tt (λ k d h. h)
  Step-Inv {s} (wake t key c r at_p done) inv =
      Inv-quiet s _ t (waiting key c) (returned key r) inv refl refl refl at_p refl
        (c, Made-Kept (quiet s _ t refl refl) (subst (Fits s t) at_p (inv.fits t)), done)
        (λ k d h. h)
  Step-Inv {s} (clean t key c r at_p done) inv =
      Inv-quiet s _ t (finished key c) (returned key r) inv refl refl refl at_p refl
        (c, Made-Kept (quiet s _ t refl refl) (subst (Fits s t) at_p (inv.fits t)), done)
        (λ k d h. deleted_lem key k d s.m h)
  Step-Inv {s} (store t key at_p) inv = store-Inv s t key at_p inv
  Step-Inv {s} (run t key c r at_p) inv = run-Inv s t key c r at_p inv

  init-Inv : (wants : ℕ → Text) (unused : ℕ → Call R) → Inv (init wants unused)
  unfolding lookup
  init-Inv wants unused = record {
    known = λ key c h. absurd (ground arith);
    fits = λ t. tt;
    led = λ c h. absurd (omega (arith, h));
  }

  pub Reach-Inv :
      {wants : ℕ → Text} {unused : ℕ → Call R} {s : Group R} → Reach wants unused s → Inv s
  Reach-Inv {wants} {unused} start = init-Inv wants unused
  Reach-Inv (later r step) = Step-Inv step (Reach-Inv r)

  -- In every reachable state, a goroutine that has returned from `Do` has the result of a call that
  -- was made for its key.
  pub Reach-returned :
      {wants : ℕ → Text} {unused : ℕ → Call R} {s : Group R} (t : ℕ) (key : Text) (r : R)
      → Reach wants unused s
      → s.pc t ≡ returned key r
      → (c : ℕ) × Made s key c × ((s.calls c).result ≡ some r)
  Reach-returned {s = s} t key r reached at_p = subst (Fits s t) at_p ((Reach-Inv reached).fits t)

  -- In every reachable state, a goroutine that waits for a call can return its result, or the
  -- goroutine that made the call is in `fn` for the same key: nobody waits for a call that nobody
  -- will end.
  pub Reach-waiting :
      {wants : ℕ → Text} {unused : ℕ → Call R} {s : Group R} (t : ℕ) (key : Text) (c : ℕ)
      → Reach wants unused s
      → s.pc t ≡ waiting key c
      → ((r : R) × Step s (at_pc s t (returned key r))) ⊎ (s.pc (s.calls c).leader ≡ running key c)
  Reach-waiting {s = s} t key c reached at_p =
      let inv = Reach-Inv reached in
      let made : Made s key c = subst (Fits s t) at_p (inv.fits t) in
      elim (Option-cases (s.calls c).result) [
        | inl pending ↦ inr (inv.led c made.below pending ∙ ap (λ k. running k c) made.named)
        | inr (r, done) ↦ inl (r, wake t key c r at_p done)
      ]
