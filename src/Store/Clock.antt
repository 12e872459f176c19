-- ===== src/Store/Clock.antt =====
-- The internal clock of pkg/store/lru2.go, which `init` keeps and `Now` reads, beside the clock of the
-- system, which does not go back. Times are numbers of nanoseconds; by the clock of the system a sleep
-- takes the time that it is asked for, or longer.
use cache_learning_notes.Base.{ℕ, suc, ◌+◌, ◌≤◌, ◌<◌, ◌≡◌, arith, ap}

-- `100 * time.Millisecond`
abbrev pub tenth : ℕ
tenth = 100_000_000

-- Where the goroutine stands: before the calibration, between its reading of the system and its store of
-- that, or in a sleep, with the number of additions so far and the time of the system before which it
-- does not wake.
pub data Phase : Type 0 where
  calibrating : Phase
  storing : ℕ → Phase
  sleeping : ℕ → ℕ → Phase

pub record Clocks : Type 0 where
  pub clock : ℕ
  pub system : ℕ
  pub phase : Phase

pub data Step (s : Clocks) : Clocks → Type 0 where
  time_passes : (d : ℕ) → Step s (record s { system = s.system + d })
  read_system : s.phase ≡ calibrating → Step s (record s { phase = storing s.system })
  calibrate :
      (time : ℕ)
      → s.phase ≡ storing time
      → Step s (record s { clock = time; phase = sleeping 0 (s.system + tenth) })
  add :
      (i wake : ℕ)
      → s.phase ≡ sleeping i wake
      → wake ≤ s.system
      → i < 9
      → Step s (record s { clock = s.clock + tenth; phase = sleeping (suc i) (s.system + tenth) })
  turn :
      (wake : ℕ)
      → s.phase ≡ sleeping 9 wake
      → wake ≤ s.system
      → Step s (record s { phase = calibrating })

-- The clock starts with the time of the system.
pub data Reach (t : ℕ) : Clocks → Type 0 where
  start : Reach t (record { clock = t; system = t; phase = calibrating })
  later : {s s' : Clocks} → Reach t s → Step s s' → Reach t s'

-- `Now`
unfoldable pub now : Clocks → ℕ
now s = s.clock

-- An addition that is still to come leaves the clock behind the system.
record IsBehind (s : Clocks) : Type 0 where
  behind : s.clock ≤ s.system
  stored : (time : ℕ) → s.phase ≡ storing time → time ≤ s.system
  awake : (i wake : ℕ) → s.phase ≡ sleeping i wake → s.clock + tenth ≤ wake

wake_of : Phase → ℕ
wake_of calibrating = 0
wake_of (storing time) = 0
wake_of (sleeping i wake) = wake

read_of : Phase → ℕ
read_of calibrating = 0
read_of (storing time) = time
read_of (sleeping i wake) = 0

step-IsBehind : (s s' : Clocks) → IsBehind s → Step s s' → IsBehind s'
unfolding wake_of read_of
step-IsBehind s _ b (time_passes d) = record {
  behind = omega (arith, b.behind);
  stored = λ time e. omega (arith, b.stored time e);
  awake = b.awake;
}
step-IsBehind s _ b (read_system h) = record {
  behind = b.behind;
  stored = λ time e. omega (arith, ap read_of e);
  awake = λ i wake e. absurd (ground arith);
}
step-IsBehind s _ b (calibrate time h) =
    let before = b.stored time h in
    record {
      behind = before;
      stored = λ t e. absurd (ground arith);
      awake = λ i wake e. omega (arith, before, ap wake_of e);
    }
step-IsBehind s _ b (add i wake h woke few) =
    let enough = b.awake i wake h in
    record {
      behind = omega (arith, enough);
      stored = λ t e. absurd (ground arith);
      awake = λ j next e. omega (arith, enough, ap wake_of e);
    }
step-IsBehind s _ b (turn wake h woke) = record {
  behind = b.behind;
  stored = λ t e. absurd (ground arith);
  awake = λ i next e. absurd (ground arith);
}

reach-IsBehind : (t : ℕ) (s : Clocks) → Reach t s → IsBehind s
reach-IsBehind t _ start = record {
  behind = omega arith;
  stored = λ time e. absurd (ground arith);
  awake = λ i wake e. absurd (ground arith);
}
reach-IsBehind t s' (later {s} r step) = step-IsBehind s s' (reach-IsBehind t s r) step

-- In every interleaving of the goroutine of `init` with the clock of the system, `Now` is at most the
-- time of the system, if that clock does not go back and a sleep takes at least its time by it.
pub reach-now : (t : ℕ) (s : Clocks) → Reach t s → now s ≤ s.system
unfolding now
reach-now t s r = (reach-IsBehind t s r).behind
