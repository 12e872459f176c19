-- ===== src/SingleFlight/Stored.antt =====
-- The step of `Do` that stores a new call in the map.
use cache_learning_notes.Base.{
  ℕ, suc, ◌<◌, ◌≡◌, refl, sym, ap, ◌∙◌, subst, inl, inr, none, some, some_eq, Bool-cases, Text,
  text_eq, ◌=?◌, =?_eq, arith, ◌==◌,
}
use cache_learning_notes.Base.Dict.{lookup, insert, lookup-insert}
use cache_learning_notes.SingleFlight.Step.{Call, creating, running, Group, set_at}
use cache_learning_notes.SingleFlight.Invariant.{
  Made, Inv, set_at_self, set_at_below, Kept, Made-Kept, fits_after, led_after,
}

module _ {R : Type 0} where
  module _ (s : Group R) (t : ℕ) (key : Text) (at_p : s.pc t ≡ creating key) (inv : Inv s) where
    abbrev pub fresh : Call R
    fresh = record { result = none; key = key; leader = t }

    abbrev pub stored : Group R
    stored = record {
      m = insert key s.next s.m;
      calls = set_at s.next fresh s.calls;
      next = suc s.next;
      pc = set_at t (running key s.next) s.pc;
    }

    stored_same : (c : ℕ) → c < s.next → stored.calls c ≡ s.calls c
    stored_same c h = set_at_below s.next c fresh s.calls h

    stored_here : stored.calls s.next ≡ fresh
    stored_here = set_at_self s.next fresh s.calls

    stored-Kept : Kept s stored t
    stored-Kept = record {
      grows = omega arith;
      keys = λ c h. ap Call.key (stored_same c h);
      results = λ c r h k. ap Call.result (stored_same c h) ∙ k;
      others = λ c h ne. stored_same c h;
    }

    stored-Made : Made stored key s.next
    stored-Made = record { below = omega arith; named = ap Call.key stored_here }

    stored_known : (q : Text) (c : ℕ) → lookup q stored.m ≡ some c → Made stored q c
    stored_known q c h = elim (Bool-cases (key =? q)) [
      | inl same ↦
          let new : s.next ≡ c =
            some_eq (sym (lookup-insert key q s.next s.m ∙ rw same refl) ∙ h) in
          subst (Made stored q) new
            (subst (λ z. Made stored z s.next) (=?_eq key q same) stored-Made)
      | inr apart ↦
          Made-Kept stored-Kept
            (inv.known q c (sym (lookup-insert key q s.next s.m ∙ rw apart refl) ∙ h))
    ]

    abbrev IsLed : Group R → ℕ → Type 0
    IsLed g c = g.pc (g.calls c).leader ≡ running (g.calls c).key c

    stored-IsLed : (c : ℕ) → c < stored.next → (stored.calls c).result ≡ none → IsLed stored c
    stored-IsLed c h free = elim (Bool-cases (s.next == c)) [
      | inl e ↦
          let same : s.next ≡ c = ground arith in
          subst (IsLed stored) same (
            subst (λ z. stored.pc z.leader ≡ running z.key s.next) (sym stored_here)
              (set_at_self t (running key s.next) s.pc))
      | inr e ↦
          let below : c < s.next = ground arith in
          led_after s stored t c (creating key) (running key s.next) inv at_p refl refl
            (stored_same c below) below free
    ]

    pub store-Inv : Inv stored
    store-Inv = record {
      known = stored_known;
      fits =
          fits_after s stored t (running key s.next) stored-Kept refl
            (stored-Made, ap Call.leader stored_here, ap Call.result stored_here) inv.fits;
      led = stored-IsLed;
    }
