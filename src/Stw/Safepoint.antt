-- ===== src/Stw/Safepoint.antt =====
-- What the mutators' places have to do with the safepoint and with the start-the-world count.
pub mod Runs
use mmtk_openjdk.Base.{
  ℕ, zero, suc, ◌+◌, ◌^◌, ◌≤◌, ◌<◌, ◌≡◌, refl, ◌⊎◌, inl, inr, Bool, true, false, Option, none, some,
  List, [], ◌∷◌, arith, Bool-cases, ltb, dec_lt, length,
}
use mmtk_openjdk.Stw.State.{
  MutatorPc, in_java, at_yieldpoint, has_read, in_vm, awaiting_count, count_notified, unblocking,
  WorkerPc, no_gc, count_raised, start_requested, awaiting_start, start_notified, started, World,
  Outcome, moved, blocked, assertion_failed,
}
use mmtk_openjdk.Stw.Vm.{companion_step, vm_step, is_safe, all_safe}
use mmtk_openjdk.Stw.Worker.{worker_step}
use mmtk_openjdk.Stw.Mutator.{Choice, mutator_step}
use mmtk_openjdk.Stw.Schedule.{
  Actor, companion, vm, spurious_companion, spurious_vm, spurious_worker, worker, mutator,
  spurious_mutator, step, start, continue, proceed, run,
}
pub use mmtk_openjdk.Stw.Protocol.{is_starting}
use mmtk_openjdk.Stw.Protocol.{Protocol, has_stopped}
use mmtk_openjdk.Stw.Protocol.Keeps.{Keeps, step-Keeps, start-Protocol}

-- A mutator's place fits the world: outside the safepoint no later than it begins, waiting for a
-- count that the next start-the-world reaches, and asleep only as long as it has to be.
abbrev pub Fits : Bool → WorkerPc → ℕ → MutatorPc → Type 0
Fits safepoint g count in_java = safepoint ≡ false
Fits safepoint g count (has_read k) = (safepoint ≡ false) × (k ≤ count + 1)
Fits safepoint g count (in_vm k) = k ≤ count + 1
Fits safepoint g count (awaiting_count k) = (k ≤ count + 1) × ((is_starting g ≡ true) ⊎ (count < k))
Fits safepoint g count (count_notified k) = k ≤ count + 1
Fits safepoint g count _ = Unit

abbrev pub FitsIn : World → MutatorPc → Type 0
FitsIn w p = Fits w.safepoint w.worker w.start_the_world_count p

abbrev pub AllFit : ℕ → World → Type 0
AllFit n w = (i : ℕ) → i < n → FitsIn w (w.mutators i)

pub all_safe-is_safe :
    (n : ℕ) (m : ℕ → MutatorPc) (i : ℕ) → all_safe n m ≡ true → i < n → is_safe (m i) ≡ true
unfolding all_safe
all_safe-is_safe zero m i h lt = absurd (omega arith)
all_safe-is_safe (suc n) m i h lt = elim (dec_lt i n) [
  | yes below ↦ ground (arith, all_safe-is_safe n m i)
  | no last ↦ (let e : i ≡ n = omega arith in ground arith)
]

-- Where the step leads, the place of mutator `i` fits.
abbrev pub FitsAfter : ℕ → World → Outcome → Type 0
FitsAfter i w (moved w') = FitsIn w' (w'.mutators i)
FitsAfter i w blocked = Unit
FitsAfter i w assertion_failed = Unit

module _ (n : ℕ) (w : World) (p : Protocol w) (small : w.start_the_world_count + 1 < 2 ^ 64) (i : ℕ)
    (lt : i < n) (fit : FitsIn w (w.mutators i)) where
  companion_step-FitsAfter : FitsAfter i w (companion_step w)
  unfolding companion_step
  companion_step-FitsAfter = ground arith

  vm_step-FitsAfter : FitsAfter i w (vm_step n w)
  unfolding vm_step
  vm_step-FitsAfter = ground (arith, all_safe-is_safe n w.mutators i)

  worker_step-FitsAfter : (wait : Bool) → FitsAfter i w (worker_step wait w)
  unfolding worker_step
  worker_step-FitsAfter wait = ground arith

  mutator_step-FitsAfter : (c : Choice) (j : ℕ) → FitsAfter i w (mutator_step c j w)
  unfolding mutator_step
  mutator_step-FitsAfter c j = ground arith

  -- A step of any thread keeps the places of the mutators in accord with the safepoint and the count.
  pub step-FitsAfter : (a : Actor) → FitsAfter i w (step n a w)
  unfolding step
  step-FitsAfter companion = companion_step-FitsAfter
  step-FitsAfter vm = vm_step-FitsAfter
  step-FitsAfter spurious_companion = ground arith
  step-FitsAfter spurious_vm = ground arith
  step-FitsAfter spurious_worker = ground arith
  step-FitsAfter (worker wait) = worker_step-FitsAfter wait
  step-FitsAfter (mutator j c) = ground (arith, mutator_step-FitsAfter c j)
  step-FitsAfter (spurious_mutator j) = ground arith

-- Where the step leads, the count is at most one higher.
abbrev pub CountAfter : World → Outcome → Type 0
CountAfter w (moved w') = w'.start_the_world_count ≤ w.start_the_world_count + 1
CountAfter w blocked = Unit
CountAfter w assertion_failed = Unit

module _ (n : ℕ) (w : World) where
  companion_step-CountAfter : CountAfter w (companion_step w)
  unfolding companion_step
  companion_step-CountAfter = ground arith

  vm_step-CountAfter : CountAfter w (vm_step n w)
  unfolding vm_step
  vm_step-CountAfter = ground arith

  worker_step-CountAfter : (wait : Bool) → CountAfter w (worker_step wait w)
  unfolding worker_step
  worker_step-CountAfter wait = ground arith

  mutator_step-CountAfter : (c : Choice) (j : ℕ) → CountAfter w (mutator_step c j w)
  unfolding mutator_step
  mutator_step-CountAfter c j = ground arith

  pub step-CountAfter : (a : Actor) → CountAfter w (step n a w)
  unfolding step
  step-CountAfter companion = companion_step-CountAfter
  step-CountAfter vm = vm_step-CountAfter
  step-CountAfter spurious_companion = ground arith
  step-CountAfter spurious_vm = ground arith
  step-CountAfter spurious_worker = ground arith
  step-CountAfter (worker wait) = worker_step-CountAfter wait
  step-CountAfter (mutator j c) = ground (arith, mutator_step-CountAfter c j)
  step-CountAfter (spurious_mutator j) = ground arith
