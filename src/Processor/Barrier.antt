-- ===== src/Processor/Barrier.antt =====
-- `globalBarrier` of `MultiProcessorSystem` of src/core/multiprocessor/processor_core.cpp, as a relation
-- between the states of a system of threads. A thread holds the mutex from its arrival until it waits or
-- returns, and again when it is woken and looks at the predicate, so each of these is one step.
use cache_simulator.Prelude.{
  ℕ, ◌≤◌, ◌<◌, ◌≡◌, ◌≢◌, sym, ap, ◌∙◌, true, false, ◌==◌, ltb, if◌then◌else◌, Bool, Bool-cases, inl,
  inr, arith, add32,
}

-- Where a thread stands: before its call, in `barrierCV_.wait`, or returned.
pub data Position : Type 0 where
  outside waiting returned : Position

pub record BarrierState : Type 0 where
  pub barrier_count : ℕ
  pub position : ℕ → Position

abbrev pub move : BarrierState → ℕ → Position → ℕ → BarrierState
move s i p count = record {
  barrier_count = count;
  position = λ j. if j == i then p else s.position j;
}

-- The critical section of an arrival: the new count, and whether the thread waits.
unfoldable pub arrive : ℕ → ℕ → ℕ × Bool
arrive num_processors barrier_count =
    let count = add32 barrier_count 1 in
    if ltb count num_processors then (count, true) else (0, false)

abbrev position_after : Bool → Position
position_after true = waiting
position_after false = returned

-- A thread arrives, is woken and finds the predicate true, or returns to its work. A wake-up that finds it
-- false changes nothing.
pub data Step (n : ℕ) (s : BarrierState) : BarrierState → Type 0 where
  arrival :
      (i : ℕ)
      → s.position i ≡ outside
      → Step n s
          (move s i (position_after (arrive n s.barrier_count).1) (arrive n s.barrier_count).0)
  wake :
      (i : ℕ)
      → s.position i ≡ waiting
      → n ≤ s.barrier_count
      → Step n s (move s i returned s.barrier_count)
  go_on : (i : ℕ) → s.position i ≡ returned → Step n s (move s i outside s.barrier_count)

abbrev pub init : BarrierState
init = record { barrier_count = 0; position = λ i. outside }

pub data Reach (n : ℕ) (s : BarrierState) : BarrierState → Type 0 where
  here : Reach n s s
  next : {t u : BarrierState} → Reach n s t → Step n t u → Reach n s u

-- With a processor to wait for, the count stays below the number of processors.
arrive-lt : (n k : ℕ) → 0 < n → (arrive n k).0 < n
unfolding arrive
arrive-lt n k pos = ground arith

Step-lt :
    {n : ℕ} {s t : BarrierState} → 0 < n → Step n s t → s.barrier_count < n → t.barrier_count < n
Step-lt {n} {s} pos (arrival i at) h = arrive-lt n s.barrier_count pos
Step-lt pos (wake i at le) h = h
Step-lt pos (go_on i at) h = h

-- A thread that stands elsewhere is another thread.
other_thread :
    (s : BarrierState) (i j : ℕ) (p : Position)
    → p ≢ waiting
    → s.position i ≡ p
    → s.position j ≡ waiting
    → (j == i) ≡ false
other_thread s i j p ne at w = elim (Bool-cases (j == i)) [
  | inl same ↦ let e : j ≡ i = ground arith in absurd (ne (sym at ∙ sym (ap s.position e) ∙ w))
  | inr apart ↦ apart
]

-- No step moves a waiting thread.
Step-waiting :
    {n : ℕ} {s t : BarrierState} (j : ℕ)
    → s.barrier_count < n
    → Step n s t
    → s.position j ≡ waiting
    → t.position j ≡ waiting
Step-waiting {s} j h (arrival i at) w = rw (other_thread s i j outside (λ e. cc) at w) w
Step-waiting j h (wake i at le) w = absurd (omega arith)
Step-waiting {s} j h (go_on i at) w = rw (other_thread s i j returned (λ e. cc) at w) w

Reach-lt :
    {n : ℕ} {s t : BarrierState} → 0 < n → s.barrier_count < n → Reach n s t → t.barrier_count < n
Reach-lt pos h here = h
Reach-lt pos h (next r st) = Step-lt pos st (Reach-lt pos h r)

-- With at least one processor, a thread that waits at the barrier never leaves it: whatever steps
-- the threads take from the start of the system, and however many arrive, it still waits.
pub global_barrier-waiting :
    (n : ℕ) {s t : BarrierState} (i : ℕ)
    → 0 < n
    → Reach n init s
    → s.position i ≡ waiting
    → Reach n s t
    → t.position i ≡ waiting
global_barrier-waiting n i pos start w here = w
global_barrier-waiting n i pos start w (next r st) =
    Step-waiting i (Reach-lt pos (Reach-lt pos pos start) r) st
      (global_barrier-waiting n i pos start w r)
