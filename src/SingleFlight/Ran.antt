-- ===== src/SingleFlight/Ran.antt =====
-- The step of `Do` in which `fn` runs and its result is stored.
use cache_learning_notes.Base.{
  ℕ, ◌<◌, ◌≡◌, ◌≢◌, refl, sym, ap, ◌∙◌, subst, inl, inr, none, some, Bool-cases, Text, text_eq,
  arith, ◌==◌,
}
use cache_learning_notes.SingleFlight.Step.{Call, running, finished, Group, set_at, with_result}
use cache_learning_notes.SingleFlight.Invariant.{
  call_of, Fits, Inv, set_at_ne, set_at_self, Kept, Made-Kept, fits_after, led_other,
}

module _ {R : Type 0} where
  module _ (s : Group R) (t : ℕ) (key : Text) (c : ℕ) (r : R) (at_p : s.pc t ≡ running key c)
      (inv : Inv s) where
    abbrev pub ran : Group R
    ran = record s {
      calls = set_at c (with_result (s.calls c) r) s.calls;
      pc = set_at t (finished key c) s.pc;
    }

    before : Fits s t (running key c)
    before = subst (Fits s t) at_p (inv.fits t)

    ran_ne : (d : ℕ) → c ≢ d → ran.calls d ≡ s.calls d
    ran_ne d ne = set_at_ne c d (with_result (s.calls c) r) s.calls ne

    ran_here : (d : ℕ) → c ≡ d → ran.calls d ≡ with_result (s.calls d) r
    ran_here d e = subst (λ z. ran.calls z ≡ with_result (s.calls z) r) e (set_at_self c _ s.calls)

    ran-Kept : Kept s ran t
    ran-Kept = record {
      grows = omega arith;
      keys = λ d h. elim (Bool-cases (c == d)) [
        | inl e ↦ ap Call.key (ran_here d (ground arith))
        | inr e ↦ ap Call.key (ran_ne d (ground arith))
      ];
      results = λ d v h k. elim (Bool-cases (c == d)) [
        | inl e ↦
            let same : c ≡ d = ground arith in
            let clash : none ≡ some v = sym before.2 ∙ ap (λ z. (s.calls z).result) same ∙ k in cc
        | inr e ↦ ap Call.result (ran_ne d (ground arith)) ∙ k
      ];
      others = λ d h ne. ran_ne d (λ e. ne (ap (λ z. (s.calls z).leader) (sym e) ∙ before.1));
    }

    -- A goroutine runs one call at a time.
    other_call :
        (d : ℕ)
        → c ≢ d
        → s.pc (s.calls d).leader ≡ running (s.calls d).key d
        → t ≢ (s.calls d).leader
    other_call d apart old e = apart (ap (call_of 0) (sym at_p ∙ ap s.pc e ∙ old))

    ran_led :
        (d : ℕ)
        → d < s.next
        → (ran.calls d).result ≡ none
        → ran.pc (ran.calls d).leader ≡ running (ran.calls d).key d
    ran_led d h free = elim (Bool-cases (c == d)) [
      | inl e ↦
          let clash : none ≡ some r = sym free ∙ ap Call.result (ran_here d (ground arith)) in cc
      | inr e ↦
          let apart : c ≢ d = ground arith in
          let same = ran_ne d apart in
          let old = inv.led d h (sym (ap Call.result same) ∙ free) in
          led_other s ran t d (finished key c) refl same (other_call d apart old) old
    ]

    pub run-Inv : Inv ran
    run-Inv = record {
      known = λ q d h. Made-Kept ran-Kept (inv.known q d h);
      fits =
          fits_after s ran t (finished key c) ran-Kept refl (Made-Kept ran-Kept before.0) inv.fits;
      led = ran_led;
    }
