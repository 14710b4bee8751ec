-- ===== src/Stw/Protocol/Sleepers.antt =====
-- A mutator that sleeps in `mmtk_block_for_gc` (openjdk/mmtkUpcalls.cpp) has a count to wait for, or is about to be
-- notified.
use mmtk_openjdk.Base.{ℕ, ◌<◌, ◌≡◌, ◌⊎◌, true, arith}
use mmtk_openjdk.Stw.State.{
  MutatorPc, awaiting_count, WorkerPc, World, Outcome, moved, blocked, assertion_failed,
}
use mmtk_openjdk.Stw.Vm.{companion_step, vm_step}
use mmtk_openjdk.Stw.Worker.{worker_step}
use mmtk_openjdk.Stw.Mutator.{Choice, mutator_step}
use mmtk_openjdk.Stw.Schedule.{
  Actor, companion, vm, spurious_companion, spurious_vm, spurious_worker, worker, mutator,
  spurious_mutator, step, start,
}
use mmtk_openjdk.Stw.Protocol.{is_starting}

abbrev Waits : WorkerPc → ℕ → MutatorPc → Type 0
Waits g count (awaiting_count k) = (is_starting g ≡ true) ⊎ (count < k)
Waits g count _ = Unit

abbrev WaitsIn : ℕ → World → Type 0
WaitsIn i w = Waits w.worker w.start_the_world_count (w.mutators i)

abbrev pub AllWait : World → Type 0
AllWait w = (i : ℕ) → WaitsIn i w

abbrev pub WaitsAfter : ℕ → Outcome → Type 0
WaitsAfter i (moved w) = WaitsIn i w
WaitsAfter i blocked = Unit
WaitsAfter i assertion_failed = Unit

module _ (n : ℕ) (w : World) (i : ℕ) (waits : WaitsIn i w) where
  companion_step-WaitsAfter : WaitsAfter i (companion_step w)
  unfolding companion_step
  companion_step-WaitsAfter = ground arith

  vm_step-WaitsAfter : WaitsAfter i (vm_step n w)
  unfolding vm_step
  vm_step-WaitsAfter = ground arith

  worker_step-WaitsAfter : (wait : _) → WaitsAfter i (worker_step wait w)
  unfolding worker_step
  worker_step-WaitsAfter wait = ground arith

  mutator_step-WaitsAfter : (c : Choice) (j : ℕ) → WaitsAfter i (mutator_step c j w)
  unfolding mutator_step
  mutator_step-WaitsAfter c j = ground arith

  pub step-WaitsAfter : (a : Actor) → WaitsAfter i (step n a w)
  unfolding step
  step-WaitsAfter companion = companion_step-WaitsAfter
  step-WaitsAfter vm = vm_step-WaitsAfter
  step-WaitsAfter spurious_companion = ground arith
  step-WaitsAfter spurious_vm = ground arith
  step-WaitsAfter spurious_worker = ground arith
  step-WaitsAfter (worker wait) = worker_step-WaitsAfter wait
  step-WaitsAfter (mutator j c) = ground (arith, mutator_step-WaitsAfter c j)
  step-WaitsAfter (spurious_mutator j) = ground arith

pub start-AllWait : AllWait start
unfolding start
start-AllWait = ground arith
