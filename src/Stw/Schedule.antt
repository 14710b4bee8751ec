-- ===== src/Stw/Schedule.antt =====
-- All threads together: a schedule picks, at each point, a thread or a spurious wake-up.
use mmtk_openjdk.Base.{ℕ, Bool, false, Option, none, some, List, [], ◌∷◌, ltb, if◌then◌else◌}
use mmtk_openjdk.Stw.State.{
  threads_resumed, at_top, vm_idle, no_operation, no_gc, in_java, World, Outcome, moved, blocked,
  assertion_failed,
}
use mmtk_openjdk.Stw.Monitor.{wake_companion, wake_vm, wake_worker}
use mmtk_openjdk.Stw.Vm.{companion_step, vm_step}
use mmtk_openjdk.Stw.Worker.{wake_mutator, worker_step}
use mmtk_openjdk.Stw.Mutator.{update, Choice, mutator_step}

-- The threads, and the wake-ups that `wait` may have for no reason.
pub data Actor : Type 0 where
  companion vm : Actor
  spurious_companion spurious_vm spurious_worker : Actor
  worker : (wait : Bool) → Actor
  mutator : (i : ℕ) → Choice → Actor
  spurious_mutator : (i : ℕ) → Actor

-- One step of `actor`, with `n` mutators.
unfoldable pub step : ℕ → Actor → World → Outcome
unfolding companion_step vm_step worker_step mutator_step
step n companion w = companion_step w
step n vm w = vm_step n w
step n (worker wait) w = worker_step wait w
step n (mutator i c) w = if ltb i n then mutator_step c i w else blocked
step n spurious_companion w = moved (record w { companion = wake_companion w.companion })
step n spurious_vm w = moved (record w { vm = wake_vm w.vm })
step n spurious_worker w = moved (record w { worker = wake_worker w.worker })
step n (spurious_mutator i) w =
    moved (record w { mutators = update w.mutators i (wake_mutator (w.mutators i)) })

-- The constructors and initializers: `MMTkVMCompanionThread`, `mmtk_start_the_world_count`.
unfoldable pub start : World
start = record {
  desired_state = threads_resumed;
  reached_state = threads_resumed;
  companion = at_top;
  vm = vm_idle;
  operation = no_operation;
  heap_lock = false;
  safepoint = false;
  worker = no_gc;
  start_the_world_count = 0;
  last_gc_time = 0;
  mutators = λ _. in_java;
}

-- A thread that is blocked stays where it is; a failed assertion ends the run.
abbrev pub proceed : World → Outcome → Option World
proceed w (moved w') = some w'
proceed w blocked = some w
proceed w assertion_failed = none

abbrev pub continue : Option World → (World → Option World) → Option World
continue none k = none
continue (some w) k = k w

-- The run of a schedule, `none` if an assertion fails.
unfoldable pub run : ℕ → List Actor → World → Option World
unfolding step
run n [] w = some w
run n (a ∷ rest) w = continue (proceed w (step n a w)) (run n rest)
