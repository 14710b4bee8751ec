-- ===== src/Stw/Spec.antt =====
-- What the binding promises to mmtk-core about stopping the world, without threads, monitors and
-- requests: the specification of `mmtk_stop_all_mutators`, `mmtk_resume_mutators` and
-- `mmtk_block_for_gc` (openjdk/mmtkUpcalls.cpp), and the view of a detailed world that it speaks of.
pub mod Refines
pub mod Counts
use mmtk_openjdk.Base.{ℕ, ◌+◌, ◌≤◌, ◌<◌, ◌≡◌, ◌≢◌, true, false, List, [], ◌∷◌, if◌then◌else◌}
use mmtk_openjdk.Stw.State.{
  MutatorPc, in_java, at_yieldpoint, has_read, in_vm, awaiting_count, count_notified, unblocking,
  VmPc, vm_idle, in_safepoint, awaiting_resume, resume_notified, leaving_safepoint, WorkerPc, World,
}
use mmtk_openjdk.Stw.Safepoint.{is_starting}

-- The mutators run; the world is stopped for a GC; the GC is done, and the world is still stopped.
pub data Phase : Type 0 where
  running stopped collected : Phase

-- A mutator runs, asks for a GC while it still runs, pauses, or is blocked until so many GCs are done, awake or asleep.
pub data Stand : Type 0 where
  runs pauses : Stand
  asks blocks sleeps : (until : ℕ) → Stand

-- Where a notification leaves a mutator.
abbrev pub awake : Stand → Stand
awake (sleeps k) = blocks k
awake s = s

abbrev pub IsHalted : Stand → Type 0
IsHalted runs = ⊥
IsHalted (asks k) = ⊥
IsHalted _ = Unit

pub record Spec : Type 0 where
  pub phase : Phase
  pub collections : ℕ
  pub mutators : ℕ → Stand

pub data Event : Type 0 where
  nothing stop collect start notify_all : Event
  pause ask resume : (i : ℕ) → Event
  block sleep wake release : (i until : ℕ) → Event

abbrev pub SameMutators : Spec → Spec → Type 0
SameMutators s t = (j : ℕ) → t.mutators j ≡ s.mutators j

-- Mutator `i` goes to a stand, and all else stays.
abbrev pub Goes : ℕ → Stand → Spec → Spec → Type 0
Goes i stand s t =
    (t.phase ≡ s.phase)
    × (t.collections ≡ s.collections)
    × (t.mutators i ≡ stand)
    × ((j : ℕ) → j ≢ i → t.mutators j ≡ s.mutators j)

-- The world may be stopped only when all of the `n` mutators are halted; they run again only
-- after a GC; a mutator that asks for a GC blocks until there was one more than when it asked, falls
-- asleep only before that, and is woken with all others by `notify_all`.
abbrev pub Does : ℕ → Event → Spec → Spec → Type 0
Does n nothing s t = (t.phase ≡ s.phase) × (t.collections ≡ s.collections) × SameMutators s t
Does n stop s t =
    (s.phase ≡ running)
    × ((i : ℕ) → i < n → IsHalted (s.mutators i))
    × (t.phase ≡ stopped)
    × (t.collections ≡ s.collections)
    × SameMutators s t
Does n collect s t =
    (s.phase ≡ stopped)
    × (t.phase ≡ collected)
    × (t.collections ≡ s.collections + 1)
    × SameMutators s t
Does n start s t =
    (s.phase ≡ collected) × (t.phase ≡ running) × (t.collections ≡ s.collections) × SameMutators s t
Does n notify_all s t =
    (t.phase ≡ s.phase)
    × (t.collections ≡ s.collections)
    × ((j : ℕ) → t.mutators j ≡ awake (s.mutators j))
Does n (pause i) s t = (i < n) × (s.phase ≡ running) × (s.mutators i ≡ runs) × Goes i pauses s t
Does n (ask i) s t =
    (i < n) × (s.phase ≡ running) × (s.mutators i ≡ runs) × Goes i (asks (s.collections + 1)) s t
Does n (block i k) s t = (i < n) × (s.mutators i ≡ asks k) × Goes i (blocks k) s t
Does n (sleep i k) s t =
    (i < n) × (s.mutators i ≡ blocks k) × (s.collections < k) × Goes i (sleeps k) s t
Does n (wake i k) s t = (s.mutators i ≡ sleeps k) × Goes i (blocks k) s t
Does n (release i k) s t =
    (i < n) × (s.mutators i ≡ blocks k) × (k ≤ s.collections) × Goes i pauses s t
Does n (resume i) s t = (i < n) × (s.phase ≡ running) × (s.mutators i ≡ pauses) × Goes i runs s t

-- A run of the specification, with the events in order.
pub data SpecRun (n : ℕ) : List Event → Spec → Spec → Type 0 where
  here : {s : Spec} → SpecRun n [] s s
  next :
      {e : Event} {events : List Event} {s t u : Spec}
      → Does n e s t
      → SpecRun n events t u
      → SpecRun n (e ∷ events) s u

abbrev pub spec_start : Spec
spec_start = record { phase = running; collections = 0; mutators = λ _. runs }

abbrev pub phase_at : VmPc → WorkerPc → Phase
phase_at vm_idle g = running
phase_at in_safepoint g = stopped
phase_at awaiting_resume g = if is_starting g then collected else stopped
phase_at resume_notified g = if is_starting g then collected else stopped
phase_at leaving_safepoint g = collected

abbrev pub stand_at : MutatorPc → Stand
stand_at in_java = runs
stand_at at_yieldpoint = pauses
stand_at (has_read k) = asks k
stand_at (in_vm k) = blocks k
stand_at (awaiting_count k) = sleeps k
stand_at (count_notified k) = blocks k
stand_at unblocking = pauses

abbrev pub view : World → Spec
view w = record {
  phase = phase_at w.vm w.worker;
  collections = w.start_the_world_count;
  mutators = λ i. stand_at (w.mutators i);
}
