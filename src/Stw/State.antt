-- ===== src/Stw/State.antt =====
-- The state that the threads of openjdk/mmtkVMCompanionThread.cpp, openjdk/mmtkVMOperation.cpp and
-- the stop, start and block upcalls of openjdk/mmtkUpcalls.cpp share, and where each thread stands.
-- A step of a thread is one stretch of code that holds a monitor, or one shared access outside a
-- monitor; `wait` ends a stretch, and the thread goes on once it is notified (or spuriously).
use mmtk_openjdk.Base.{ℕ, Bool, true, false}

-- `MMTkVMCompanionThread::stw_state`
pub data StwState : Type 0 where
  threads_suspended threads_resumed : StwState

abbrev pub is_suspended : StwState → Bool
is_suspended threads_suspended = true
is_suspended threads_resumed = false

abbrev pub is_resumed : StwState → Bool
is_resumed threads_suspended = false
is_resumed threads_resumed = true

-- Where the companion thread stands in `run`.
pub data CompanionPc : Type 0 where
  at_top : CompanionPc  -- before the lock
  awaiting_request : CompanionPc  -- asleep in `wait`
  request_notified : CompanionPc  -- woken in `wait`
  submitting : CompanionPc  -- before `VMThread::execute`
  executing : CompanionPc  -- blocked in `VMThread::execute`

-- Where the VM thread stands.
pub data VmPc : Type 0 where
  vm_idle : VmPc
  in_safepoint : VmPc  -- the safepoint has begun, before `do_mmtk_stw_operation`
  awaiting_resume : VmPc  -- asleep in `wait`
  resume_notified : VmPc  -- woken in `wait`
  leaving_safepoint : VmPc  -- `doit` has returned, the safepoint has not ended

-- The operation that the companion hands to the VM thread.
pub data Operation : Type 0 where
  no_operation pending running completed : Operation

-- Where the GC worker stands in `mmtk_stop_all_mutators` and `mmtk_resume_mutators`.
pub data WorkerPc : Type 0 where
  no_gc : WorkerPc  -- before `mmtk_stop_all_mutators`
  stop_requested : WorkerPc  -- after `request(_threads_suspended, false)`
  awaiting_stop : WorkerPc  -- asleep until `_threads_suspended` is reached
  stop_notified : WorkerPc  -- woken there
  stopped : WorkerPc  -- `mmtk_stop_all_mutators` has its answer
  count_raised : WorkerPc  -- after `Atomic::inc` of `mmtk_resume_mutators`
  start_requested : WorkerPc  -- after `request(_threads_resumed, false)`
  awaiting_start : WorkerPc  -- asleep until `_threads_resumed` is reached
  start_notified : WorkerPc  -- woken there
  started : WorkerPc  -- before the notification on `gc_lock`

-- Where a mutator stands, with the count that it waits for in `mmtk_block_for_gc`.
pub data MutatorPc : Type 0 where
  in_java : MutatorPc
  at_yieldpoint : MutatorPc
  has_read : (next_count : ℕ) → MutatorPc  -- before `ThreadBlockInVM`
  in_vm : (next_count : ℕ) → MutatorPc  -- in the safepoint, before the lock
  awaiting_count : (next_count : ℕ) → MutatorPc  -- asleep in `wait`
  count_notified : (next_count : ℕ) → MutatorPc  -- woken in `wait`
  unblocking : MutatorPc  -- past the loop, before the end of `ThreadBlockInVM`

pub record World : Type 0 where
  pub desired_state : StwState
  pub reached_state : StwState
  pub companion : CompanionPc
  pub vm : VmPc
  pub operation : Operation
  pub heap_lock : Bool  -- held for the operation
  pub safepoint : Bool  -- the VM thread holds all Java threads
  pub worker : WorkerPc
  pub start_the_world_count : ℕ  -- size_t
  pub last_gc_time : ℕ  -- milliseconds
  pub mutators : ℕ → MutatorPc

-- What a thread's step does.
pub data Outcome : Type 0 where
  moved : World → Outcome
  blocked : Outcome
  assertion_failed : Outcome
