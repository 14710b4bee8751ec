-- ===== src/Stw/Progress.antt =====
-- The protocol ends its two waits: under every order in which the companion thread, the VM thread
-- and the worker take their turns, without spurious wake-ups.
use mmtk_openjdk.Base.{
  ℕ, zero, suc, ◌+◌, ◌*◌, ◌≤◌, ◌<◌, ◌≡◌, subst, ◌⊎◌, inl, inr, Bool, true, false, arith,
}
use mmtk_openjdk.Stw.State.{
  CompanionPc, at_top, awaiting_request, request_notified, submitting, executing, VmPc, vm_idle,
  in_safepoint, awaiting_resume, resume_notified, leaving_safepoint, Operation, pending, running,
  completed, WorkerPc, no_gc, stop_requested, awaiting_stop, stop_notified, count_raised,
  start_requested, awaiting_start, start_notified, started, World, Outcome, moved, blocked,
  assertion_failed,
}
use mmtk_openjdk.Stw.Vm.{companion_step, vm_step, all_safe}
use mmtk_openjdk.Stw.Worker.{worker_step}
use mmtk_openjdk.Stw.Protocol.{Protocol, is_stopping, has_stopped}
use mmtk_openjdk.Stw.Protocol.Keeps.{Keeps, companion_step-Keeps, vm_step-Keeps, worker_step-Keeps}
use mmtk_openjdk.Stw.Safepoint.{is_starting}

-- How far the companion and the VM thread are from the stop.
abbrev stage : CompanionPc → Operation → VmPc → ℕ
stage executing completed v = 5
stage at_top o v = 4
stage request_notified o v = 4
stage awaiting_request o v = 0
stage submitting o v = 3
stage executing pending v = 2
stage executing running in_safepoint = 1
stage executing o v = 0

abbrev vm_rest : VmPc → ℕ
vm_rest leaving_safepoint = 1
vm_rest resume_notified = 1
vm_rest _ = 0

abbrev stop_rest : WorkerPc → ℕ
stop_rest stop_requested = 1
stop_rest stop_notified = 1
stop_rest _ = 0

abbrev stop_measure : World → ℕ
stop_measure w = 3 * stage w.companion w.operation w.vm + vm_rest w.vm + stop_rest w.worker

-- How far the companion and the VM thread are from the start.
abbrev companion_rest : CompanionPc → ℕ
companion_rest executing = 2
companion_rest at_top = 1
companion_rest request_notified = 1
companion_rest _ = 0

abbrev start_rest : VmPc → ℕ
start_rest awaiting_resume = 4
start_rest resume_notified = 5
start_rest leaving_safepoint = 1
start_rest _ = 0

abbrev worker_rest : WorkerPc → ℕ
worker_rest count_raised = 7
worker_rest start_requested = 3
worker_rest start_notified = 2
worker_rest awaiting_start = 1
worker_rest started = 1
worker_rest _ = 0

abbrev start_measure : World → ℕ
start_measure w = companion_rest w.companion + start_rest w.vm + worker_rest w.worker

-- The threads of the protocol.
pub data Thread : Type 0 where
  companion vm : Thread
  worker : (wait : Bool) → Thread

unfoldable pub thread_step : ℕ → Thread → World → Outcome
unfolding companion_step vm_step worker_step
thread_step n companion w = companion_step w
thread_step n vm w = vm_step n w
thread_step n (worker wait) w = worker_step wait w

abbrev pub CanMove : Outcome → Type 0
CanMove (moved w) = Unit
CanMove blocked = ⊥
CanMove assertion_failed = ⊥

-- In a phase of the worker, within `k` steps and whichever threads take them, the phase ends in a
-- worker's place of the kind `goal`; until then some thread can move.
pub data EndsWithin (n : ℕ) (goal : WorkerPc → Bool) : ℕ → World → Type 0 where
  reached : {k : ℕ} {w : World} → goal w.worker ≡ true → EndsWithin n goal k w
  later :
      {k : ℕ} {w : World}
      → (t : Thread) → CanMove (thread_step n t w)
      → ((u : Thread) (w' : World) → thread_step n u w ≡ moved w' → EndsWithin n goal k w')
      → EndsWithin n goal (suc k) w

-- A thread that can move while the worker waits for the stop.
abbrev vm_mover : VmPc → Operation → Thread
vm_mover vm_idle pending = vm
vm_mover vm_idle _ = companion
vm_mover _ _ = vm

abbrev stop_mover : WorkerPc → VmPc → Operation → Thread
stop_mover awaiting_stop v o = vm_mover v o
stop_mover _ v o = worker true

-- A thread that can move while the worker waits for the start.
abbrev start_mover : WorkerPc → Thread
start_mover awaiting_start = vm
start_mover _ = worker true

-- One step in the stop: it leads nearer, and leaves the mutators alone, or the stop has been reached.
abbrev StopAfter : ℕ → World → Outcome → Type 0
StopAfter n w (moved w') =
    ((stop_measure w' < stop_measure w)
      × (is_stopping w'.worker ≡ true)
      × (all_safe n w'.mutators ≡ true))
    ⊎ (has_stopped w'.worker ≡ true)
StopAfter n w blocked = Unit
StopAfter n w assertion_failed = Unit

module _ (n : ℕ) (w : World) (p : Protocol w) (phase : is_stopping w.worker ≡ true)
    (safe : all_safe n w.mutators ≡ true) where
  companion-StopAfter : StopAfter n w (companion_step w)
  unfolding companion_step
  companion-StopAfter = ground arith

  vm-StopAfter : StopAfter n w (vm_step n w)
  unfolding vm_step
  vm-StopAfter = ground arith

  worker-StopAfter : (wait : Bool) → StopAfter n w (worker_step wait w)
  unfolding worker_step
  worker-StopAfter wait = ground arith

  thread-StopAfter : (t : Thread) → StopAfter n w (thread_step n t w)
  unfolding thread_step
  thread-StopAfter companion = companion-StopAfter
  thread-StopAfter vm = vm-StopAfter
  thread-StopAfter (worker wait) = worker-StopAfter wait

  stop-CanMove : CanMove (thread_step n (stop_mover w.worker w.vm w.operation) w)
  unfolding thread_step companion_step vm_step worker_step
  stop-CanMove = ground arith

-- One step in the start.
abbrev StartAfter : World → Outcome → Type 0
StartAfter w (moved w') =
    ((start_measure w' < start_measure w) × (is_starting w'.worker ≡ true)) ⊎ (w'.worker ≡ no_gc)
StartAfter w blocked = Unit
StartAfter w assertion_failed = Unit

module _ (n : ℕ) (w : World) (p : Protocol w) (phase : is_starting w.worker ≡ true) where
  companion-StartAfter : StartAfter w (companion_step w)
  unfolding companion_step
  companion-StartAfter = ground arith

  vm-StartAfter : StartAfter w (vm_step n w)
  unfolding vm_step
  vm-StartAfter = ground arith

  worker-StartAfter : (wait : Bool) → StartAfter w (worker_step wait w)
  unfolding worker_step
  worker-StartAfter wait = ground arith

  thread-StartAfter : (t : Thread) → StartAfter w (thread_step n t w)
  unfolding thread_step
  thread-StartAfter companion = companion-StartAfter
  thread-StartAfter vm = vm-StartAfter
  thread-StartAfter (worker wait) = worker-StartAfter wait

  start-CanMove : CanMove (thread_step n (start_mover w.worker) w)
  unfolding thread_step companion_step vm_step worker_step
  start-CanMove = ground arith

thread-Keeps : (n : ℕ) (t : Thread) (w : World) → Protocol w → Keeps (thread_step n t w)
unfolding thread_step
thread-Keeps n companion w p = companion_step-Keeps w p
thread-Keeps n vm w p = vm_step-Keeps n w p
thread-Keeps n (worker wait) w p = worker_step-Keeps wait w p

-- A phase ends where some thread can always move, and every move brings a measure down.
module _ {ℓ} (n : ℕ) (goal : WorkerPc → Bool) (P : World → Type ℓ) (measure : World → ℕ)
    (can_move : (w : World) → P w → (t : Thread) × CanMove (thread_step n t w))
    (nearer : (w : World) (t : Thread) (w' : World)
      → P w
      → thread_step n t w ≡ moved w'
      → (P w' × (measure w' < measure w)) ⊎ (goal w'.worker ≡ true)) where
  ends_by_measure : (k : ℕ) (w : World) → P w → measure w < k → EndsWithin n goal k w
  ends_by_measure zero w p fuel = absurd (omega arith)
  ends_by_measure (suc k) w p fuel = later (can_move w p).0 (can_move w p).1 λ u w' e.
      elim (nearer w u w' p e) [
        | inl (p', lt) ↦ ends_by_measure k w' p' (omega arith)
        | inr there ↦ reached there
      ]

record Stopping (n : ℕ) (w : World) : Type 0 where
  protocol : Protocol w
  phase : is_stopping w.worker ≡ true
  safe : all_safe n w.mutators ≡ true

record Starting (w : World) : Type 0 where
  protocol : Protocol w
  phase : is_starting w.worker ≡ true

stop_nearer :
    (n : ℕ) (w w' : World) (t : Thread)
    → Stopping n w
    → thread_step n t w ≡ moved w'
    → (Stopping n w' × (stop_measure w' < stop_measure w)) ⊎ (has_stopped w'.worker ≡ true)
stop_nearer n w w' t s e =
    let p' : Protocol w' = subst Keeps e (thread-Keeps n t w s.protocol) in
    elim (subst (StopAfter n w) e (thread-StopAfter n w s.protocol s.phase s.safe t)) [
      | inl near ↦ inl (record { protocol = p'; phase = near.1; safe = near.2 }, near.0)
      | inr there ↦ inr there
    ]

abbrev pub is_done : WorkerPc → Bool
is_done no_gc = true
is_done _ = false

start_nearer :
    (n : ℕ) (w w' : World) (t : Thread)
    → Starting w
    → thread_step n t w ≡ moved w'
    → (Starting w' × (start_measure w' < start_measure w)) ⊎ (is_done w'.worker ≡ true)
start_nearer n w w' t s e =
    let p' : Protocol w' = subst Keeps e (thread-Keeps n t w s.protocol) in
    elim (subst (StartAfter w) e (thread-StartAfter n w s.protocol s.phase t)) [
      | inl near ↦ inl (record { protocol = p'; phase = near.1 }, near.0)
      | inr there ↦ inr (ground arith)
    ]

stop_measure-le : (w : World) → stop_measure w ≤ 17
stop_measure-le w = ground arith

start_measure-le : (w : World) → start_measure w ≤ 14
start_measure-le w = ground arith

-- From a world in which the protocol's invariant holds, the worker has requested the stop and all
-- mutators have come to the safepoint or are blocked: whichever of the companion, the VM thread and
-- the worker take the turns, without spurious wake-ups, some of them can always move until the
-- worker's request is answered, and it is answered within 18 moves.
pub stop_ends :
    (n : ℕ) (w : World)
    → Protocol w
    → is_stopping w.worker ≡ true
    → all_safe n w.mutators ≡ true
    → EndsWithin n has_stopped 18 w
stop_ends n w p phase safe =
    ends_by_measure n has_stopped (Stopping n) stop_measure
      (λ w' s.
        (stop_mover w'.worker w'.vm w'.operation, stop-CanMove n w' s.protocol s.phase s.safe))
      (λ w' t w'' s e. stop_nearer n w' w'' t s e) 18 w
      (record { protocol = p; phase = phase; safe = safe }) (omega (arith, stop_measure-le w))

-- From a world in which the protocol's invariant holds and the worker has raised the count: whichever
-- of the companion, the VM thread and the worker take the turns, without spurious wake-ups, some of
-- them can always move until `mmtk_resume_mutators` returns, and it returns within 15 moves.
pub start_ends :
    (n : ℕ) (w : World) → Protocol w → is_starting w.worker ≡ true → EndsWithin n is_done 15 w
start_ends n w p phase =
    ends_by_measure n is_done Starting start_measure
      (λ w' s. (start_mover w'.worker, start-CanMove n w' s.protocol s.phase))
      (λ w' t w'' s e. start_nearer n w' w'' t s e) 15 w (record { protocol = p; phase = phase })
      (omega (arith, start_measure-le w))
