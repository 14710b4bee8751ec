-- ===== src/Stw/Monitor.antt =====
-- The monitor of `MMTkVMCompanionThread` and its two methods for GC threads
-- (openjdk/mmtkVMCompanionThread.cpp).
use mmtk_openjdk.Base.{Bool, Option, none, some, if◌then◌else◌}
use mmtk_openjdk.Stw.State.{
  StwState, threads_suspended, threads_resumed, is_suspended, is_resumed, CompanionPc,
  awaiting_request, request_notified, VmPc, awaiting_resume, resume_notified, WorkerPc,
  awaiting_stop, stop_notified, awaiting_start, start_notified, World,
}

-- `a == b` on states
abbrev pub same_state : StwState → StwState → Bool
same_state threads_suspended s = is_suspended s
same_state threads_resumed s = is_resumed s

abbrev pub wake_companion : CompanionPc → CompanionPc
wake_companion awaiting_request = request_notified
wake_companion c = c

abbrev pub wake_vm : VmPc → VmPc
wake_vm awaiting_resume = resume_notified
wake_vm v = v

abbrev pub wake_worker : WorkerPc → WorkerPc
wake_worker awaiting_stop = stop_notified
wake_worker awaiting_start = start_notified
wake_worker g = g

-- `_lock->notify_all()`: whoever sleeps on the companion's monitor wakes up.
unfoldable pub notify_all : World → World
notify_all w = record w {
  companion = wake_companion w.companion;
  vm = wake_vm w.vm;
  worker = wake_worker w.worker;
}

-- The locked part of `request` up to its wait; `none` if its assertion fails.
unfoldable pub request : StwState → World → Option World
unfolding notify_all
request desired w =
    if same_state w.desired_state desired
    then none
    else some (notify_all (record w { desired_state = desired }))

-- The test of the loop in which `request` and `wait_for_reached` wait.
unfoldable pub has_reached : StwState → World → Bool
has_reached desired w = same_state w.reached_state desired

-- The assertion of `wait_for_reached`.
unfoldable pub is_requested : StwState → World → Bool
is_requested desired w = same_state w.desired_state desired
