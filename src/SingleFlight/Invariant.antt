-- ===== src/SingleFlight/Invariant.antt =====
-- What holds in every state that goroutines in `Do` of internal/singleflight/singleflight.go reach.
use cache_learning_notes.Base.{
  ℕ, ◌≤◌, ◌<◌, ◌≡◌, ◌≢◌, refl, sym, ap, ◌∙◌, subst, inl, inr, List, none, some, Bool, true, false,
  Bool-cases, Text, text_eq, arith, ◌==◌, ==_refl, ==_ne,
}
use cache_learning_notes.Base.Dict.{lookup, delete, lookup-delete}
use cache_learning_notes.SingleFlight.Step.{
  Call, Pc, ready, creating, running, finished, waiting, returned, Group, set_at,
}

pub set_at_ne : {A : Type 0} (i j : ℕ) (a : A) (f : ℕ → A) → i ≢ j → set_at i a f j ≡ f j
set_at_ne i j a f ne = rw (==_ne i j ne) refl

pub set_at_self : {A : Type 0} (i : ℕ) (a : A) (f : ℕ → A) → set_at i a f i ≡ a
set_at_self i a f = rw (==_refl i) refl

truth : ◌≢◌ {A = Bool} false true
truth h = cc

pub deleted_lem :
    (key q : Text) (c : ℕ) (m : List (Text × ℕ))
    → lookup q (delete key m) ≡ some c
    → lookup q m ≡ some c
deleted_lem key q c m h = ground (arith, lookup-delete key q m, h)

-- A number below the one that is written.
pub set_at_below : {A : Type 0} (n c : ℕ) (a : A) (f : ℕ → A) → c < n → set_at n a f c ≡ f c
set_at_below n c a f h = set_at_ne n c a f (λ e. omega (arith, e, h))

module _ {R : Type 0} where
  abbrev pub is_running : Pc R → Bool
  is_running (ready _) = false
  is_running (creating _) = false
  is_running (running _ _) = true
  is_running (finished _ _) = false
  is_running (waiting _ _) = false
  is_running (returned _ _) = false

  abbrev pub call_of : ℕ → Pc R → ℕ
  call_of d (ready _) = d
  call_of d (creating _) = d
  call_of d (running _ c) = c
  call_of d (finished _ _) = d
  call_of d (waiting _ _) = d
  call_of d (returned _ _) = d

  -- A call that was made, for a key.
  pub record Made (s : Group R) (key : Text) (c : ℕ) : Type 0 where
    pub below : c < s.next
    pub named : (s.calls c).key ≡ key

  -- What a goroutine's place says about the calls.
  abbrev pub Fits : Group R → ℕ → Pc R → Type 0
  Fits s t (ready _) = Unit {0}
  Fits s t (creating _) = Unit {0}
  Fits s t (running key c) = Made s key c × ((s.calls c).leader ≡ t) × ((s.calls c).result ≡ none)
  Fits s t (finished key c) = Made s key c
  Fits s t (waiting key c) = Made s key c
  Fits s t (returned key r) = (c : ℕ) × Made s key c × ((s.calls c).result ≡ some r)

  pub record Inv (s : Group R) : Type 0 where
    pub known : (key : Text) (c : ℕ) → lookup key s.m ≡ some c → Made s key c
    pub fits : (t : ℕ) → Fits s t (s.pc t)
    pub led :
        (c : ℕ)
        → c < s.next
        → (s.calls c).result ≡ none
        → s.pc (s.calls c).leader ≡ running (s.calls c).key c

  -- What a step of a goroutine keeps of the calls.
  pub record Kept (s s' : Group R) (t : ℕ) : Type 0 where
    pub grows : s.next ≤ s'.next
    pub keys : (c : ℕ) → c < s.next → (s'.calls c).key ≡ (s.calls c).key
    pub results :
        (c : ℕ) (r : R) → c < s.next → (s.calls c).result ≡ some r → (s'.calls c).result ≡ some r
    pub others : (c : ℕ) → c < s.next → (s.calls c).leader ≢ t → s'.calls c ≡ s.calls c

  pub Made-Kept :
      {s s' : Group R} {t c : ℕ} {key : Text} → Kept s s' t → Made s key c → Made s' key c
  Made-Kept {s} {s'} {t} {c} k m = record {
    below = omega (arith, m.below, k.grows);
    named = k.keys c m.below ∙ m.named;
  }

  pub Fits-Kept :
      {s s' : Group R} {t₀ : ℕ} (t : ℕ) (p : Pc R)
      → Kept s s' t₀
      → t ≢ t₀
      → Fits s t p
      → Fits s' t p
  Fits-Kept t (ready _) k ne f = tt
  Fits-Kept t (creating _) k ne f = tt
  Fits-Kept t (running key c) k ne (m, lead, free) =
      let same = k.others c m.below (λ e. ne (sym lead ∙ e)) in
      (Made-Kept k m, ap Call.leader same ∙ lead, ap Call.result same ∙ free)
  Fits-Kept t (finished key c) k ne m = Made-Kept k m
  Fits-Kept t (waiting key c) k ne m = Made-Kept k m
  Fits-Kept t (returned key r) k ne (c, m, there) = (c, Made-Kept k m, k.results c r m.below there)

  -- A step of one goroutine, with its new place.
  pub fits_after :
      (s s' : Group R) (t₀ : ℕ) (p : Pc R)
      → Kept s s' t₀
      → s'.pc ≡ set_at t₀ p s.pc
      → Fits s' t₀ p
      → ((t : ℕ) → Fits s t (s.pc t))
      → (t : ℕ) → Fits s' t (s'.pc t)
  fits_after s s' t₀ p k moved new old t =
      subst (λ f. Fits s' t (f t)) (sym moved)
        (elim (Bool-cases (t₀ == t)) [
          | inl e ↦ let same : t₀ ≡ t = ground arith in rw e (subst (λ z. Fits s' z p) same new)
          | inr e ↦ rw e (Fits-Kept t (s.pc t) k (λ h. ground arith) (old t))
        ])

  -- The leader of a call that runs is another goroutine than one that does not run.
  pub leader_ne :
      (s : Group R) (t : ℕ) (c : ℕ) (p : Pc R)
      → s.pc t ≡ p
      → is_running p ≡ false
      → s.pc (s.calls c).leader ≡ running (s.calls c).key c
      → t ≢ (s.calls c).leader
  leader_ne s t c p at_p stopped lead e =
      truth (sym stopped ∙ ap is_running (sym at_p ∙ ap s.pc e ∙ lead))

  pub led_other :
      (s s' : Group R) (t c : ℕ) (q : Pc R)
      → s'.pc ≡ set_at t q s.pc
      → s'.calls c ≡ s.calls c
      → t ≢ (s.calls c).leader
      → s.pc (s.calls c).leader ≡ running (s.calls c).key c
      → s'.pc (s'.calls c).leader ≡ running (s'.calls c).key c
  led_other s s' t c q moved same ne old =
      subst (λ z. s'.pc z.leader ≡ running z.key c) (sym same)
        (ap (λ f. f (s.calls c).leader) moved ∙ set_at_ne t (s.calls c).leader q s.pc ne ∙ old)

  pub led_after :
      (s s' : Group R) (t c : ℕ) (p q : Pc R)
      → Inv s
      → s.pc t ≡ p
      → is_running p ≡ false
      → s'.pc ≡ set_at t q s.pc
      → s'.calls c ≡ s.calls c
      → c < s.next
      → (s'.calls c).result ≡ none
      → s'.pc (s'.calls c).leader ≡ running (s'.calls c).key c
  led_after s s' t c p q inv at_p stopped moved same below free =
      let old = inv.led c below (sym (ap Call.result same) ∙ free) in
      led_other s s' t c q moved same (leader_ne s t c p at_p stopped old) old

  -- A step that leaves the calls alone.
  pub quiet : (s s' : Group R) (t : ℕ) → s'.next ≡ s.next → s'.calls ≡ s.calls → Kept s s' t
  quiet s s' t n c = record {
    grows = omega (arith, n);
    keys = λ i h. ap (λ f. (f i).key) c;
    results = λ i r h k. ap (λ f. (f i).result) c ∙ k;
    others = λ i h ne. ap (λ f. f i) c;
  }

  pub Inv-quiet :
      (s s' : Group R) (t : ℕ) (p q : Pc R)
      → Inv s
      → s'.next ≡ s.next
      → s'.calls ≡ s.calls
      → s'.pc ≡ set_at t q s.pc
      → s.pc t ≡ p
      → is_running p ≡ false
      → Fits s' t q
      → ((key : Text) (c : ℕ) → lookup key s'.m ≡ some c → lookup key s.m ≡ some c)
      → Inv s'
  Inv-quiet s s' t p q inv n calls moved at_p stopped new map = record {
    known = λ key c h. Made-Kept (quiet s s' t n calls) (inv.known key c (map key c h));
    fits = fits_after s s' t q (quiet s s' t n calls) moved new inv.fits;
    led = λ c h.
        led_after s s' t c p q inv at_p stopped moved (ap (λ f. f c) calls) (omega (arith, h, n));
  }
