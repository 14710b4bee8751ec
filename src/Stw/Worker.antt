-- ===== src/Stw/Worker.antt =====
-- The GC worker: `mmtk_stop_all_mutators` and `mmtk_resume_mutators` (openjdk/mmtkUpcalls.cpp), with
-- `request` in its blocking form, or in its other form with `wait_for_reached` behind it.
use mmtk_openjdk.Base.{◌+◌, ◌%◌, ◌^◌, Bool, Option, none, some, if◌then◌else◌}
use mmtk_openjdk.Stw.State.{
  threads_suspended, threads_resumed, WorkerPc, no_gc, stop_requested, awaiting_stop, stop_notified,
  stopped, count_raised, start_requested, awaiting_start, start_notified, started, MutatorPc,
  awaiting_count, count_notified, World, Outcome, moved, blocked, assertion_failed,
}
use mmtk_openjdk.Stw.Monitor.{request, has_reached, is_requested}

-- The wait loop for `_threads_suspended`.
await_stop : World → Outcome
unfolding has_reached
await_stop w =
    moved (record w { worker = if has_reached threads_suspended w then stopped else awaiting_stop })

-- The wait loop for `_threads_resumed`.
await_start : World → Outcome
unfolding has_reached
await_start w =
    moved (record w { worker = if has_reached threads_resumed w then started else awaiting_start })

-- What `request` does behind its notification.
abbrev after_request : Option World → (World → Outcome) → Outcome
after_request none k = assertion_failed
after_request (some w) k = k w

-- The request of `mmtk_stop_all_mutators`; `wait` is `wait_until_reached`.
unfoldable pub stop_all_mutators : Bool → World → Outcome
unfolding request await_stop
stop_all_mutators wait w =
    after_request (request threads_suspended w)
      (λ w'. if wait then await_stop w' else moved (record w' { worker = stop_requested }))

-- `Atomic::inc(&mmtk_start_the_world_count)`, the first step of `mmtk_resume_mutators`
unfoldable pub raise_count : World → Outcome
raise_count w = moved (record w {
  start_the_world_count = (w.start_the_world_count + 1) % 2 ^ 64;
  worker = count_raised;
})

-- The request of `mmtk_resume_mutators`.
unfoldable pub resume_mutators : Bool → World → Outcome
unfolding request await_start
resume_mutators wait w =
    after_request (request threads_resumed w)
      (λ w'. if wait then await_start w' else moved (record w' { worker = start_requested }))

abbrev pub wake_mutator : MutatorPc → MutatorPc
wake_mutator (awaiting_count k) = count_notified k
wake_mutator m = m

-- `gc_lock()->notify_all()`, the last step of `mmtk_resume_mutators`
unfoldable pub notify_mutators : World → Outcome
notify_mutators w = moved (record w { mutators = λ i. wake_mutator (w.mutators i); worker = no_gc })

worker_at : WorkerPc → Bool → World → Outcome
unfolding stop_all_mutators await_stop raise_count resume_mutators await_start notify_mutators
    is_requested
worker_at no_gc wait w = stop_all_mutators wait w
worker_at stop_requested wait w =
    if is_requested threads_suspended w then await_stop w else assertion_failed
worker_at awaiting_stop wait w = blocked
worker_at stop_notified wait w = await_stop w
worker_at stopped wait w = raise_count w
worker_at count_raised wait w = resume_mutators wait w
worker_at start_requested wait w =
    if is_requested threads_resumed w then await_start w else assertion_failed
worker_at awaiting_start wait w = blocked
worker_at start_notified wait w = await_start w
worker_at started wait w = notify_mutators w

-- One step of the GC worker; `wait` is the `wait_until_reached` of its next request.
unfoldable pub worker_step : Bool → World → Outcome
unfolding worker_at
worker_step wait w = worker_at w.worker wait w
