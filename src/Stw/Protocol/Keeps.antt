-- ===== src/Stw/Protocol/Keeps.antt =====
-- Every step of every thread keeps the protocol's invariant, and fails no assertion.
use mmtk_openjdk.Base.{ℕ, ◌<◌, ◌≡◌, ◌⊎◌, refl, Bool, true, Option, none, some, List, [], ◌∷◌, arith}
use mmtk_openjdk.Stw.State.{awaiting_count, World, Outcome, moved, blocked, assertion_failed}
use mmtk_openjdk.Stw.Vm.{companion_step, vm_step}
use mmtk_openjdk.Stw.Worker.{worker_step}
use mmtk_openjdk.Stw.Mutator.{Choice, mutator_step}
use mmtk_openjdk.Stw.Schedule.{
  Actor, companion, vm, spurious_companion, spurious_vm, spurious_worker, worker, mutator,
  spurious_mutator, step, start, continue, proceed, run,
}
use mmtk_openjdk.Stw.Protocol.{Protocol, is_starting}
use mmtk_openjdk.Stw.Protocol.Sleepers.{AllWait, WaitsAfter, step-WaitsAfter, start-AllWait}

-- The step fails no assertion, and the invariant holds where it leads.
abbrev pub Keeps : Outcome → Type 0
Keeps (moved w) = Protocol w
Keeps blocked = Unit
Keeps assertion_failed = ⊥

pub companion_step-Keeps : (w : World) → Protocol w → Keeps (companion_step w)
unfolding companion_step
companion_step-Keeps w p = ground arith

pub vm_step-Keeps : (n : ℕ) (w : World) → Protocol w → Keeps (vm_step n w)
unfolding vm_step
vm_step-Keeps n w p = ground arith

pub worker_step-Keeps : (wait : Bool) (w : World) → Protocol w → Keeps (worker_step wait w)
unfolding worker_step
worker_step-Keeps wait w p = ground arith

mutator_step-Keeps : (c : Choice) (i : ℕ) (w : World) → Protocol w → Keeps (mutator_step c i w)
unfolding mutator_step
mutator_step-Keeps c i w p = ground arith

-- A step of any thread of a world in which the protocol's invariant holds fails no assertion, and
-- leads to a world in which the invariant holds.
pub step-Keeps : (n : ℕ) (a : Actor) (w : World) → Protocol w → Keeps (step n a w)
unfolding step
step-Keeps n companion w p = companion_step-Keeps w p
step-Keeps n vm w p = vm_step-Keeps n w p
step-Keeps n spurious_companion w p = ground arith
step-Keeps n spurious_vm w p = ground arith
step-Keeps n spurious_worker w p = ground arith
step-Keeps n (worker wait) w p = worker_step-Keeps wait w p
step-Keeps n (mutator i c) w p = ground (arith, mutator_step-Keeps c i w)
step-Keeps n (spurious_mutator i) w p = ground arith

pub start-Protocol : Protocol start
unfolding start
start-Protocol = ground arith

-- The run of any schedule fails no assertion, and the invariant holds at its end.
abbrev pub Holds : Option World → Type 0
Holds none = ⊥
Holds (some w) = Protocol w × AllWait w

continue-Holds :
    (m : Option World) (k : World → Option World)
    → Holds m
    → ((w : World) → Protocol w → AllWait w → Holds (k w))
    → Holds (continue m k)
continue-Holds none k h next = h
continue-Holds (some w) k (p, waits) next = next w p waits

proceed-Holds :
    (w : World) (o : Outcome)
    → Protocol w
    → AllWait w
    → Keeps o
    → ((i : ℕ) → WaitsAfter i o)
    → Holds (proceed w o)
proceed-Holds w (moved w') p waits k after = (k, after)
proceed-Holds w blocked p waits k after = (p, waits)
proceed-Holds w assertion_failed p waits k after = k

run-Holds :
    (n : ℕ) (actors : List Actor) (w : World) → Protocol w → AllWait w → Holds (run n actors w)
unfolding run
run-Holds n [] w p waits = (p, waits)
run-Holds n (a ∷ rest) w p waits =
    continue-Holds _ (run n rest)
      (proceed-Holds w (step n a w) p waits (step-Keeps n a w p)
        (λ i. step-WaitsAfter n w i (waits i) a))
      (λ w' p' waits'. run-Holds n rest w' p' waits')

-- From the initial world no schedule, with any number of mutators, any mix of the two forms of
-- `request` and any spurious wake-ups, makes an assertion of the companion thread's methods fail,
-- and at its end: the protocol's invariant holds, where the two states agree with where the threads
-- stand, and neither the companion, the VM thread nor the worker sleeps while what it waits for holds; and
-- a mutator sleeps only for a count that is not reached yet, or while the worker is between raising the
-- count and the notification that wakes all mutators.
pub run-Protocol :
    (n : ℕ) (actors : List Actor)
    → (w : World) × (run n actors start ≡ some w)
      × Protocol w
      × ((i k : ℕ)
          → w.mutators i ≡ awaiting_count k
          → (is_starting w.worker ≡ true) ⊎ (w.start_the_world_count < k))
run-Protocol n actors =
    elim_held (run n actors start) (run-Holds n actors start start-Protocol start-AllWait)
  where
    elim_held :
        (m : Option World)
        → Holds m
        → (w : World) × (m ≡ some w)
          × Protocol w
          × ((i k : ℕ)
              → w.mutators i ≡ awaiting_count k
              → (is_starting w.worker ≡ true) ⊎ (w.start_the_world_count < k))
    elim_held none h = absurd h
    elim_held (some w) (p, waits) = (w, refl, p, λ i k e. ground (arith, waits i))
