-- ===== src/Stw/Vm.antt =====
-- The companion thread (`run`) and the VM thread that executes its operation
-- (openjdk/mmtkVMCompanionThread.cpp, openjdk/mmtkVMOperation.cpp). `VMThread::execute` itself is
-- OpenJDK's: it runs the prologue on the calling thread, hands the operation to the VM thread, which
-- executes it at a safepoint, and returns, after the epilogue, at any time once the operation is
-- completed.
use mmtk_openjdk.Base.{ℕ, zero, suc, Bool, true, false, ◌&&◌, if◌then◌else◌}
use mmtk_openjdk.Stw.State.{
  threads_suspended, threads_resumed, is_suspended, is_resumed, CompanionPc, at_top,
  awaiting_request, request_notified, submitting, executing, VmPc, vm_idle, in_safepoint,
  awaiting_resume, resume_notified, leaving_safepoint, Operation, no_operation, pending, running,
  completed, MutatorPc, in_java, has_read, World, Outcome, moved, blocked, assertion_failed,
}
use mmtk_openjdk.Stw.Monitor.{notify_all}

-- The head of the wait loop of `run`, with the assertion behind it.
await_request : World → Outcome
await_request w =
    if is_suspended w.desired_state
    then (if is_resumed w.reached_state
        then moved (record w { companion = submitting })
        else assertion_failed)
    else moved (record w { companion = awaiting_request })

-- `VM_MMTkSTWOperation::doit_prologue`, on the companion thread
unfoldable pub doit_prologue : World → Outcome
doit_prologue w =
    if w.heap_lock
    then blocked
    else moved (record w { heap_lock = true; operation = pending; companion = executing })

-- `VM_MMTkSTWOperation::doit_epilogue`, on the companion thread; `execute` then returns to `run`.
unfoldable pub doit_epilogue : World → Outcome
doit_epilogue w =
    moved (record w { heap_lock = false; operation = no_operation; companion = at_top })

return_from_execute : Operation → World → Outcome
unfolding doit_epilogue
return_from_execute completed w = doit_epilogue w
return_from_execute _ w = blocked

companion_at : CompanionPc → World → Outcome
unfolding await_request doit_prologue return_from_execute
companion_at at_top w = if is_resumed w.reached_state then await_request w else assertion_failed
companion_at awaiting_request w = blocked
companion_at request_notified w = await_request w
companion_at submitting w = doit_prologue w
companion_at executing w = return_from_execute w.operation w

-- One step of `MMTkVMCompanionThread::run`.
unfoldable pub companion_step : World → Outcome
unfolding companion_at
companion_step w = companion_at w.companion w

-- The end of `do_mmtk_stw_operation`: past the loop, its two assertions, and the second notification.
finish_stw : World → Outcome
unfolding notify_all
finish_stw w =
    if is_resumed w.desired_state && is_suspended w.reached_state
    then moved (
        notify_all (record w {
          reached_state = threads_resumed;
          operation = completed;
          vm = leaving_safepoint;
        }))
    else assertion_failed

-- The head of the wait loop of `do_mmtk_stw_operation`.
await_resume : World → Outcome
unfolding finish_stw
await_resume w =
    if is_resumed w.desired_state then finish_stw w else moved (record w { vm = awaiting_resume })

-- `do_mmtk_stw_operation`, from its start to its first wait.
unfoldable pub do_mmtk_stw_operation : World → Outcome
unfolding await_resume notify_all
do_mmtk_stw_operation w = await_resume (notify_all (record w { reached_state = threads_suspended }))

-- A mutator that the safepoint need not wait for.
abbrev pub is_safe : MutatorPc → Bool
is_safe in_java = false
is_safe (has_read _) = false
is_safe _ = true

-- Are the first `n` mutators at the safepoint?
unfoldable pub all_safe : ℕ → (ℕ → MutatorPc) → Bool
all_safe zero m = true
all_safe (suc n) m = is_safe (m n) && all_safe n m

-- The VM thread takes the operation once every mutator has come to the safepoint.
begin_operation : ℕ → Operation → World → Outcome
begin_operation n pending w =
    if all_safe n w.mutators
    then moved (record w { safepoint = true; operation = running; vm = in_safepoint })
    else blocked
begin_operation n _ w = blocked

vm_at : ℕ → VmPc → World → Outcome
unfolding begin_operation do_mmtk_stw_operation
vm_at n vm_idle w = begin_operation n w.operation w
vm_at n in_safepoint w = do_mmtk_stw_operation w
vm_at n awaiting_resume w = blocked
vm_at n resume_notified w = await_resume w
vm_at n leaving_safepoint w = moved (record w { safepoint = false; vm = vm_idle })

-- One step of the VM thread, with `n` mutators.
unfoldable pub vm_step : ℕ → World → Outcome
unfolding vm_at
vm_step n w = vm_at n w.vm w
