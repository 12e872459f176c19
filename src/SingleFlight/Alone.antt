-- ===== src/SingleFlight/Alone.antt =====
-- A goroutine that runs `Do` of internal/singleflight/singleflight.go while no other moves and no call of
-- its key is under way: this is a call of `fn`, as internal/server/server.go is modelled.
use cache_learning_notes.Base.{ℕ, suc, Option, none, Text, text_eq, ◌≡◌, ◌∙◌, ==_refl, =?_refl, ap}
use cache_learning_notes.Base.Dict.{lookup, insert, delete, lookup-delete}
use cache_learning_notes.SingleFlight.Step.{
  Group, Call, ready, creating, running, finished, returned, set_at, at_pc, with_result, Step,
  load_miss, store, run, clean,
}

-- Any number of steps.
pub data Steps {R : Type 0} (s : Group R) : Group R → Type 0 where
  none_taken : Steps s s
  and_then : {s' s'' : Group R} → Steps s s' → Step s' s'' → Steps s s''

set_at_self : {A : Type 0} (t : ℕ) (a : A) (f : ℕ → A) → set_at t a f t ≡ a
set_at_self t a f = rw (==_refl t)

module _ {R : Type 0} where
  -- For every result of `fn` there is a run that returns it and leaves no call of the key.
  pub run_alone :
      (s : Group R) (t : ℕ) (key : Text) (r : R)
      → s.pc t ≡ ready key
      → lookup key s.m ≡ none
      → (s' : Group R) × Steps s s' × (s'.pc t ≡ returned key r) × (lookup key s'.m ≡ none)
  run_alone s t key r at_start free =
      let s₁ : Group R = at_pc s t (creating key) in
      let c = s.next in
      let s₂ : Group R = record {
        m = insert key c s.m;
        calls = set_at c (record { result = none; key = key; leader = t }) s.calls;
        next = suc c;
        pc = set_at t (running key c) s₁.pc;
      } in
      let s₃ : Group R = record s₂ {
        calls = set_at c (with_result (s₂.calls c) r) s₂.calls;
        pc = set_at t (finished key c) s₂.pc;
      } in
      let s₄ : Group R = record s₃ { m = delete key s₃.m; pc = set_at t (returned key r) s₃.pc } in
      (
        s₄,
        and_then
            (and_then
              (and_then (and_then none_taken (load_miss t key at_start free))
                (store t key (set_at_self t (creating key) s.pc)))
              (run t key c r (set_at_self t (running key c) s₁.pc)))
            (clean t key c r (set_at_self t (finished key c) s₂.pc) (
              ap {B = Option R} (λ (x : Call R). x.result)
                (set_at_self c (with_result (s₂.calls c) r) s₂.calls))),
        set_at_self t (returned key r) s₃.pc,
        lookup-delete key key s₃.m ∙ rw (=?_refl key),
      )
