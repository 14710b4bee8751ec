-- ===== src/Stw/Spec/Counts.antt =====
-- What holds in every run of the specification, and so of the threads: who asks for a GC gets the next
-- one.
use mmtk_openjdk.Base.{ℕ, ◌+◌, ◌^◌, ◌<◌, ◌≡◌, ◌⊎◌, ap, some, List, [], ◌∷◌, arith, length}
use mmtk_openjdk.Stw.State.{has_read, World}
use mmtk_openjdk.Stw.Schedule.{Actor, run}
use mmtk_openjdk.Stw.Schedule
use mmtk_openjdk.Stw.Spec.{
  SpecRun, here, next, spec_start, running, asks, IsHalted, Event, nothing, stop, collect, start,
  notify_all, pause, ask, block, sleep, wake, release, resume, Does, Spec, stand_at, view,
}
use mmtk_openjdk.Stw.Spec.Refines.{run-Events}

-- What every run of the specification keeps: the world is stopped only while every mutator is halted,
-- and a GC asked for is the next one.
record Orderly (n : ℕ) (s : Spec) : Type 0 where
  halted : (s.phase ≡ running) ⊎ ((i : ℕ) → i < n → IsHalted (s.mutators i))
  next_one : (i k : ℕ) → i < n → s.mutators i ≡ asks k → k ≡ s.collections + 1

module _ (n : ℕ) (s t : Spec) (o : Orderly n s) where
  Does-Orderly : (e : Event) → Does n e s t → Orderly n t
  Does-Orderly nothing d = ground arith
  Does-Orderly stop d = ground arith
  Does-Orderly collect d = ground arith
  Does-Orderly start d = ground arith
  Does-Orderly notify_all d = ground arith
  Does-Orderly (pause i) d = ground arith
  Does-Orderly (ask i) d = ground arith
  Does-Orderly (block i k) d = ground arith
  Does-Orderly (sleep i k) d = ground arith
  Does-Orderly (wake i k) d = ground arith
  Does-Orderly (release i k) d = ground arith
  Does-Orderly (resume i) d = ground arith

SpecRun-Orderly :
    (n : ℕ) (events : List Event) (s t : Spec) → SpecRun n events s t → Orderly n s → Orderly n t
SpecRun-Orderly n [] s t here o = o
SpecRun-Orderly n (e ∷ events) s u (next {t = t} d r) o =
    SpecRun-Orderly n events t u r (Does-Orderly n s t o e d)

spec_start-Orderly : (n : ℕ) → Orderly n spec_start
spec_start-Orderly n = ground arith

-- After fewer than 2 ^ 64 - 1 steps from the initial world: a mutator in `mmtk_block_for_gc` that has
-- not yet entered the safepoint waits for exactly one more start of the world than there were, neither
-- for one that is over nor for a second one.
pub reads_next_count :
    (n : ℕ) (actors : List Actor) (w : World) (i k : ℕ)
    → length actors + 1 < 2 ^ 64
    → run n actors Schedule.start ≡ some w
    → i < n
    → w.mutators i ≡ has_read k
    → k ≡ w.start_the_world_count + 1
reads_next_count n actors w i k short ends lt e =
    let (events, r) = run-Events n actors w short ends in
    (SpecRun-Orderly n events spec_start (view w) r (spec_start-Orderly n)).next_one i k lt
      (ap stand_at e)
