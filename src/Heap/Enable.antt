-- ===== src/Heap/Enable.antt =====
-- `MMTkHeap::enable_collection` and `schedule_finalizer` (openjdk/mmtkHeap.cpp), with
-- `MMTkFinalizerThread::initialize` (openjdk/mmtkFinalizerThread.cpp): between the two steps of
-- `enable_collection` other threads may run. mmtk-core does no GC before `initialize_collection`.
use mmtk_openjdk.Base.{
  ℕ, ◌≡◌, ◌≢◌, Bool, true, false, Option, none, some, List, [], ◌∷◌, if◌then◌else◌, arith,
}
use mmtk_openjdk.Finalizer.{Finalizer, schedule, finalizer_step}
use mmtk_openjdk.Finalizer

-- Where the thread that starts the VM stands in `enable_collection`.
pub data EnablePc : Type 0 where
  before_enable finalizer_ready enabled : EnablePc

pub record Vm : Type 0 where
  pub pc : EnablePc
  pub instance_ : Option Finalizer  -- `MMTkFinalizerThread::instance`
  pub collects : Bool  -- `initialize_collection` has been called

pub data Outcome : Type 0 where
  goes_on : Vm → Outcome
  exits : Outcome  -- `vm_exit_during_initialization`
  null_dereference : Outcome

-- `MMTkFinalizerThread::initialize`, with or without an OS thread for it
unfoldable pub initialize_finalizer : (has_osthread : Bool) → Vm → Outcome
initialize_finalizer has_osthread v =
    if has_osthread
    then goes_on (record v { instance_ = some Finalizer.start; pc = finalizer_ready })
    else exits

unfoldable pub initialize_collection : Vm → Outcome
initialize_collection v = goes_on (record v { collects = true; pc = enabled })

enable_at : EnablePc → Bool → Vm → Outcome
unfolding initialize_finalizer initialize_collection
enable_at before_enable has_osthread v = initialize_finalizer has_osthread v
enable_at finalizer_ready has_osthread v = initialize_collection v
enable_at enabled has_osthread v = goes_on v

-- One step of `MMTkHeap::enable_collection`.
unfoldable pub enable_collection : (has_osthread : Bool) → Vm → Outcome
unfolding enable_at
enable_collection has_osthread v = enable_at v.pc has_osthread v

schedule_at : Option Finalizer → Vm → Outcome
schedule_at none v = null_dereference
schedule_at (some f) v = goes_on (record v { instance_ = some (schedule f) })

-- `MMTkHeap::schedule_finalizer`
unfoldable pub schedule_finalizer : Vm → Outcome
unfolding schedule_at
schedule_finalizer v = schedule_at v.instance_ v

pub data Actor : Type 0 where
  starter : (has_osthread : Bool) → Actor
  gc : Actor  -- a GC that has found objects to finalize
  finalizer : (answer : Option ℕ) → Actor

-- The finalizer thread takes no step before it exists.
finalizer_of : Option Finalizer → Option ℕ → Vm → Outcome
finalizer_of none answer v = goes_on v
finalizer_of (some f) answer v = goes_on (record v { instance_ = some (finalizer_step answer f) })

unfoldable pub step : Actor → Vm → Outcome
unfolding enable_collection schedule_finalizer finalizer_of
step (starter has_osthread) v = enable_collection has_osthread v
step gc v = if v.collects then schedule_finalizer v else goes_on v
step (finalizer answer) v = finalizer_of v.instance_ answer v

abbrev pub and_then : Outcome → (Vm → Outcome) → Outcome
and_then (goes_on v) k = k v
and_then exits k = exits
and_then null_dereference k = null_dereference

unfoldable pub run : List Actor → Vm → Outcome
unfolding step
run [] v = goes_on v
run (a ∷ rest) v = and_then (step a v) (run rest)

abbrev pub before : Vm
before = record { pc = before_enable; instance_ = none; collects = false }

-- What the start has set up where it stands.
abbrev IsReady : EnablePc → Option Finalizer → Bool → Type 0
IsReady before_enable i c = c ≡ false
IsReady finalizer_ready none c = ⊥
IsReady finalizer_ready (some f) c = c ≡ false
IsReady enabled none c = ⊥
IsReady enabled (some f) c = c ≡ true

abbrev StaysReady : Outcome → Type 0
StaysReady (goes_on v) = IsReady v.pc v.instance_ v.collects
StaysReady exits = Unit
StaysReady null_dereference = ⊥

step-StaysReady : (a : Actor) (v : Vm) → IsReady v.pc v.instance_ v.collects → StaysReady (step a v)
unfolding step
step-StaysReady a v h = ground arith

and_then-StaysReady :
    (o : Outcome) (k : Vm → Outcome)
    → StaysReady o
    → ((v : Vm) → IsReady v.pc v.instance_ v.collects → StaysReady (k v))
    → StaysReady (and_then o k)
and_then-StaysReady (goes_on v) k h next = next v h
and_then-StaysReady exits k h next = h
and_then-StaysReady null_dereference k h next = h

run-StaysReady :
    (actors : List Actor) (v : Vm) → IsReady v.pc v.instance_ v.collects → StaysReady (run actors v)
unfolding run
run-StaysReady [] v h = h
run-StaysReady (a ∷ rest) v h =
    and_then-StaysReady (step a v) (run rest) (step-StaysReady a v h)
      (λ v' h'. run-StaysReady rest v' h')

-- However GCs and the finalizer thread run between and after the steps of `enable_collection`, no GC
-- schedules finalization before `MMTkFinalizerThread::instance` is set.
pub run-no_null : (actors : List Actor) → run actors before ≢ null_dereference
run-no_null actors = ground (arith, run-StaysReady actors before)
