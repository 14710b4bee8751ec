-- ===== src/Stw/Spec/Refines.antt =====
-- The threads together implement the specification: each step of a thread is an event of it.
use mathlib.Core.Option.{some-injective}
use mmtk_openjdk.Base.{
  sym, ℕ, suc, subst, ◌+◌, ◌^◌, ◌<◌, ◌≡◌, refl, true, Option, none, some, List, [], ◌∷◌, arith,
  length, ltb, if◌then◌else◌,
}
use mmtk_openjdk.Stw.State.{
  MutatorPc, in_java, at_yieldpoint, has_read, in_vm, awaiting_count, count_notified, unblocking,
  VmPc, vm_idle, leaving_safepoint, WorkerPc, started, World, Outcome, moved, blocked,
  assertion_failed,
}
use mmtk_openjdk.Stw.State.{stopped as worker_stopped}
use mmtk_openjdk.Stw.Vm.{companion_step, vm_step, all_safe, is_safe}
use mmtk_openjdk.Stw.Worker.{worker_step}
use mmtk_openjdk.Stw.Mutator.{Choice, block_for_gc, yield, mutator_step}
use mmtk_openjdk.Stw.Schedule.{Actor, step, proceed, continue, run}
use mmtk_openjdk.Stw.Schedule
use mmtk_openjdk.Stw.Protocol.{Protocol}
use mmtk_openjdk.Stw.Safepoint.{AllFit, all_safe-is_safe}
use mmtk_openjdk.Stw.Safepoint.Runs.{Sound, SoundAfter, step-Sound, start-Sound}
use mmtk_openjdk.Stw.Spec.{
  SpecRun, here, next, spec_start, Event, nothing, stop, collect, start, notify_all, pause, ask,
  block, sleep, wake, release, resume, Does, Spec, view,
}

-- The event that a step of the VM thread is.
abbrev vm_event : VmPc → Event
vm_event vm_idle = stop
vm_event leaving_safepoint = start
vm_event _ = nothing

abbrev worker_event : WorkerPc → Event
worker_event worker_stopped = collect
worker_event started = notify_all
worker_event _ = nothing

abbrev java_event : Choice → ℕ → Event
java_event (block_for_gc now) i = ask i
java_event yield i = pause i

abbrev mutator_event : MutatorPc → ℕ → Choice → ℕ → Event
mutator_event in_java count c i = java_event c i
mutator_event at_yieldpoint count c i = resume i
mutator_event (has_read k) count c i = block i k
mutator_event (in_vm k) count c i = if ltb count k then sleep i k else release i k
mutator_event (count_notified k) count c i = if ltb count k then sleep i k else release i k
mutator_event unblocking count c i = resume i
mutator_event _ count c i = nothing

abbrev spurious_event : MutatorPc → ℕ → Event
spurious_event (awaiting_count k) i = wake i k
spurious_event _ i = nothing

-- The event that the actor's next step is, by where the actor stands.
abbrev pub event_of : World → Actor → Event
event_of w Schedule.vm = vm_event w.vm
event_of w (Schedule.worker wait) = worker_event w.worker
event_of w (Schedule.mutator i c) = mutator_event (w.mutators i) w.start_the_world_count c i
event_of w (Schedule.spurious_mutator i) = spurious_event (w.mutators i) i
event_of w _ = nothing

-- The step is this event of the specification, if the actor can move.
abbrev pub DoesAfter : ℕ → Event → World → Outcome → Type 0
DoesAfter n e w (moved w') = Does n e (view w) (view w')
DoesAfter n e w blocked = Unit
DoesAfter n e w assertion_failed = Unit

module _ (n : ℕ) (w : World) (p : Protocol w) (small : w.start_the_world_count + 1 < 2 ^ 64)
    (fits : AllFit n w) where
  companion-DoesAfter : DoesAfter n nothing w (companion_step w)
  unfolding companion_step
  companion-DoesAfter = ground arith

  worker-DoesAfter : (wait : _) → DoesAfter n (worker_event w.worker) w (worker_step wait w)
  unfolding worker_step
  worker-DoesAfter wait = ground arith

  mutator-DoesAfter :
      (c : Choice) (i : ℕ)
      → i < n
      → DoesAfter n
          (mutator_event (w.mutators i) w.start_the_world_count c i)
          w
          (mutator_step c i w)
  unfolding mutator_step
  mutator-DoesAfter c i lt = ground (arith, fits i lt)

  all_safe_lem : all_safe n w.mutators ≡ true → (i : ℕ) → i < n → is_safe (w.mutators i) ≡ true
  all_safe_lem h i lt = all_safe-is_safe n w.mutators i h lt

  vm-DoesAfter : DoesAfter n (vm_event w.vm) w (vm_step n w)
  unfolding vm_step
  vm-DoesAfter = ground (arith, all_safe_lem)

  step-DoesAfter : (a : Actor) → DoesAfter n (event_of w a) w (step n a w)
  unfolding step
  step-DoesAfter Schedule.companion = companion-DoesAfter
  step-DoesAfter Schedule.vm = vm-DoesAfter
  step-DoesAfter (Schedule.worker wait) = worker-DoesAfter wait
  step-DoesAfter (Schedule.mutator i c) = ground (arith, mutator-DoesAfter c i)
  step-DoesAfter Schedule.spurious_companion = ground arith
  step-DoesAfter Schedule.spurious_vm = ground arith
  step-DoesAfter Schedule.spurious_worker = ground arith
  step-DoesAfter (Schedule.spurious_mutator i) = ground arith

-- A run of the specification leads from one world to another.
abbrev pub Leads : ℕ → Spec → World → Type 0
Leads n s w = (events : List Event) × SpecRun n events s (view w)

-- A thread's step, and then a run.
step-Leads :
    (n budget : ℕ) (a : Actor) (w w' : World)
    → Sound n (suc budget) w
    → (o : Outcome) → step n a w ≡ o
    → proceed w o ≡ some w'
    → (w'' : World) → Leads n (view w') w''
    → Leads n (view w) w''
step-Leads n budget a w w' s (moved v) e e' w'' (events, r) =
    let does : Does n (event_of w a) (view w) (view v) =
      subst (DoesAfter n _ w) e (step-DoesAfter n w s.protocol (omega (arith, s.room)) s.fits a) in
    (
      _ ∷ events,
      next does (subst (λ x. SpecRun n events (view x) (view w'')) (sym (some-injective _ _ e')) r),
    )
step-Leads n budget a w w' s blocked e e' w'' (events, r) =
    (events, subst (λ x. SpecRun n events (view x) (view w'')) (sym (some-injective _ _ e')) r)
step-Leads n budget a w w' s assertion_failed e e' w'' l = ground arith

continue-Leads :
    (n budget : ℕ) (s : Spec) (m : Option World) (k : World → Option World) (w' : World)
    → SoundAfter n budget m
    → ((v : World) → Sound n budget v → k v ≡ some w' → Leads n (view v) w')
    → ((v : World) → m ≡ some v → Leads n (view v) w' → Leads n s w')
    → continue m k ≡ some w'
    → Leads n s w'
continue-Leads n budget s none k w' sound rest first e = absurd sound
continue-Leads n budget s (some v) k w' sound rest first e = first v refl (rest v sound e)

run-Leads :
    (n : ℕ) (actors : List Actor) (w w' : World)
    → Sound n (length actors) w
    → run n actors w ≡ some w'
    → Leads n (view w) w'
unfolding run
run-Leads n [] w w' s e =
    ([], subst (λ x. SpecRun n [] (view w) (view x)) (some-injective _ _ e) here)
run-Leads n (a ∷ rest) w w' s e =
    continue-Leads n (length rest) (view w) (proceed w (step n a w)) (run n rest) w'
      (step-Sound n (length rest) a w s (step n a w) refl)
      (λ v s' ends. run-Leads n rest v w' s' ends)
      (λ v e' l. step-Leads n (length rest) a w v s (step n a w) refl e' w' l) e

pub run-Events :
    (n : ℕ) (actors : List Actor) (w : World)
    → length actors + 1 < 2 ^ 64
    → run n actors Schedule.start ≡ some w
    → (events : List Event) × SpecRun n events spec_start (view w)
unfolding Schedule.start
run-Events n actors w short ends =
    run-Leads n actors Schedule.start w (start-Sound n (length actors) short) ends

-- Each step of the schedule, in its world, is blocked or the event of the specification that belongs to it.
abbrev pub Follows : ℕ → List Actor → World → Type 0
Follows n [] w = Unit
Follows n (a ∷ rest) w =
    DoesAfter n (event_of w a) w (step n a w)
    × ((w' : World) → proceed w (step n a w) ≡ some w' → Follows n rest w')

proceed-Sound :
    (n budget : ℕ) (m : Option World) (w : World)
    → SoundAfter n budget m
    → m ≡ some w
    → Sound n budget w
proceed-Sound n budget m w s e = subst (SoundAfter n budget) e s

run-Follows :
    (n : ℕ) (actors : List Actor) (w : World) → Sound n (length actors) w → Follows n actors w
run-Follows n [] w s = tt
run-Follows n (a ∷ rest) w s = (
  step-DoesAfter n w s.protocol (omega (arith, s.room)) s.fits a,
  λ w' e. run-Follows n rest w' (
      proceed-Sound n (length rest) (proceed w (step n a w)) w'
        (step-Sound n (length rest) a w s (step n a w) refl) e),
)

-- In a run of fewer than 2 ^ 64 - 1 steps from the initial world, which the specification sees as its own initial
-- state, each step of each thread is, in the world that it finds, blocked or the event of the specification that its
-- place in the code stands for: the world is stopped only when every mutator is halted; each GC is counted once
-- for each stop, where the worker raises the count; the mutators run again only after it; one that asks for a
-- GC falls asleep only before the count has gone up by one, is woken with all others where the worker notifies
-- them, and is released only once the count has gone up.
pub run-refines :
    (n : ℕ) (actors : List Actor)
    → length actors + 1 < 2 ^ 64
    → (view Schedule.start ≡ spec_start) × Follows n actors Schedule.start
unfolding Schedule.start
run-refines n actors short =
    (refl, run-Follows n actors Schedule.start (start-Sound n (length actors) short))
