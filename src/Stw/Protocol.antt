-- ===== src/Stw/Protocol.antt =====
-- The invariant of the stop-the-world protocol: where the threads stand together, and that a
-- sleeping thread has nothing to wake up for.
pub mod Sleepers
pub mod Keeps
use mmtk_openjdk.Base.{◌≡◌, ◌⊎◌, Bool, true, false, arith, refl}
use mmtk_openjdk.Stw.State.{
  StwState, threads_suspended, threads_resumed, CompanionPc, at_top, awaiting_request,
  request_notified, submitting, executing, VmPc, vm_idle, in_safepoint, awaiting_resume,
  resume_notified, leaving_safepoint, Operation, no_operation, pending, running, completed,
  WorkerPc, no_gc, stop_requested, awaiting_stop, stop_notified, stopped, count_raised,
  start_requested, awaiting_start, start_notified, started, World,
}

-- Where the worker stands between its two requests.
abbrev pub wants_stop : WorkerPc → StwState
wants_stop stop_requested = threads_suspended
wants_stop awaiting_stop = threads_suspended
wants_stop stop_notified = threads_suspended
wants_stop stopped = threads_suspended
wants_stop count_raised = threads_suspended
wants_stop _ = threads_resumed

-- The worker has been told that the threads are stopped.
abbrev pub has_stopped : WorkerPc → Bool
has_stopped stopped = true
has_stopped count_raised = true
has_stopped _ = false

-- The worker waits for the threads to stop.
abbrev pub is_stopping : WorkerPc → Bool
is_stopping stop_requested = true
is_stopping awaiting_stop = true
is_stopping stop_notified = true
is_stopping _ = false

-- The worker is outside `mmtk_stop_all_mutators` and the request of `mmtk_resume_mutators`.
abbrev pub is_quiet : WorkerPc → Bool
is_quiet no_gc = true
is_quiet started = true
is_quiet _ = false

-- The worker has raised the count, and has yet to notify the mutators.
abbrev pub is_starting : WorkerPc → Bool
is_starting count_raised = true
is_starting start_requested = true
is_starting awaiting_start = true
is_starting start_notified = true
is_starting started = true
is_starting _ = false

-- The VM thread is inside `do_mmtk_stw_operation`, past its start.
abbrev pub holds_world : VmPc → Bool
holds_world awaiting_resume = true
holds_world resume_notified = true
holds_world _ = false

abbrev pub operation_at : VmPc → Operation → Bool
operation_at vm_idle running = false
operation_at vm_idle _ = true
operation_at leaving_safepoint running = false
operation_at leaving_safepoint _ = true
operation_at _ running = true
operation_at _ _ = false

abbrev pub companion_with : CompanionPc → Operation → Bool
companion_with executing no_operation = false
companion_with executing _ = true
companion_with _ no_operation = true
companion_with _ _ = false

abbrev pub is_submitting : CompanionPc → Operation → VmPc → Bool
is_submitting submitting o v = true
is_submitting c pending v = true
is_submitting c o in_safepoint = true
is_submitting c o v = false

abbrev pub reached_at : Bool → StwState
reached_at true = threads_suspended
reached_at false = threads_resumed

abbrev pub safepoint_at : VmPc → Bool
safepoint_at vm_idle = false
safepoint_at _ = true

abbrev pub held_for : Operation → Bool
held_for no_operation = false
held_for _ = true

pub record Protocol (w : World) : Type 0 where
  pub desired : w.desired_state ≡ wants_stop w.worker
  pub reached : w.reached_state ≡ reached_at (holds_world w.vm)
  pub told : has_stopped w.worker ≡ true → holds_world w.vm ≡ true
  pub quiet : is_quiet w.worker ≡ true → holds_world w.vm ≡ false
  pub submitted : is_submitting w.companion w.operation w.vm ≡ true → is_stopping w.worker ≡ true
  pub operation : operation_at w.vm w.operation ≡ true
  pub companion : companion_with w.companion w.operation ≡ true
  pub held : w.heap_lock ≡ held_for w.operation
  pub safepoint : w.safepoint ≡ safepoint_at w.vm
  -- No wake-up is lost: a sleeper's condition does not hold.
  pub companion_sleeps : w.companion ≡ awaiting_request → w.desired_state ≡ threads_resumed
  pub vm_sleeps : w.vm ≡ awaiting_resume → w.desired_state ≡ threads_suspended
  pub stop_sleeps : w.worker ≡ awaiting_stop → w.reached_state ≡ threads_resumed
  pub start_sleeps : w.worker ≡ awaiting_start → w.reached_state ≡ threads_suspended
