-- ===== src/Tests/Flights.antt =====
-- Goroutines in `Do` of internal/singleflight/singleflight.go at concrete inputs: they want one key.
use cache_learning_notes.Base.{
  ℕ, some, none, Text, text_eq, text_beq, ◌≡◌, ◌⊎◌, refl, if◌then◌else◌, ◌==◌,
}
use cache_learning_notes.Base.Dict.{lookup, insert}
use cache_learning_notes.SingleFlight.Invariant.{Made}
use cache_learning_notes.SingleFlight.Reachable.{Reach-returned, Reach-waiting}
use cache_learning_notes.SingleFlight.Step.{
  Call, creating, running, finished, waiting, returned, Group, Step, load_hit, load_miss, store,
  run, wake, init, Reach, start, later, at_pc,
}
use cache_learning_notes.Tests.Layers.{a}

abbrev wants : ℕ → Text
wants _ = a

abbrev unused : ℕ → Call ℕ
unused _ = record { result = none; key = a; leader = 0 }

abbrev missed : Group ℕ
missed = at_pc (init wants unused) 0 (creating a)

missed-Reach : Reach wants unused missed
unfolding lookup
missed-Reach = later start (load_miss 0 a refl refl)

abbrev stored_by_0 : Group ℕ
stored_by_0 = record {
  m = insert a 0 missed.m;
  calls = λ j. if 0 == j then record { result = none; key = a; leader = 0 } else missed.calls j;
  next = 1;
  pc = λ j. if 0 == j then running a 0 else missed.pc j;
}

stored-Reach : Reach wants unused stored_by_0
stored-Reach = later missed-Reach (store 0 a refl)

abbrev one_waits : Group ℕ
one_waits = at_pc stored_by_0 1 (waiting a 0)

one_waits-Reach : Reach wants unused one_waits
unfolding lookup insert text_beq
one_waits-Reach = later stored-Reach (load_hit 1 a 0 refl refl)

Reach-waiting_example :
    ((r : ℕ) × Step one_waits (at_pc one_waits 1 (returned a r)))
    ⊎ (one_waits.pc (one_waits.calls 0).leader ≡ running a 0)
Reach-waiting_example = Reach-waiting 1 a 0 one_waits-Reach refl

abbrev has_run : Group ℕ
has_run = record one_waits {
  calls =
      λ j. if 0 == j then record { result = some 7; key = a; leader = 0 } else one_waits.calls j;
  pc = λ j. if 0 == j then finished a 0 else one_waits.pc j;
}

abbrev woken : Group ℕ
woken = at_pc has_run 1 (returned a 7)

woken-Reach : Reach wants unused woken
woken-Reach = later (later one_waits-Reach (run 0 a 0 7 refl)) (wake 1 a 0 7 refl refl)

Reach-returned_example : (c : ℕ) × Made woken a c × ((woken.calls c).result ≡ some 7)
Reach-returned_example = Reach-returned 1 a 7 woken-Reach refl

-- Two goroutines that load before either stores are both in `fn` for the key.
both_run : (s : Group ℕ) × Reach wants unused s × (s.pc 0 ≡ running a 0) × (s.pc 1 ≡ running a 1)
unfolding lookup
both_run = (
  _,
  later (later (later missed-Reach (load_miss 1 a refl refl)) (store 0 a refl)) (store 1 a refl),
  refl,
  refl,
)
