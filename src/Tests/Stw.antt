-- ===== src/Tests/Stw.antt =====
-- Schedules of two mutators, one at a yieldpoint and one in `mmtk_block_for_gc`.
use mmtk_openjdk.Base.{
  ℕ, ◌+◌, ◌<◌, ◌^◌, ◌≡◌, ◌≢◌, refl, ◌⊎◌, true, false, Option, none, some, List, [], ◌∷◌, ◌++◌,
  arith, length,
}
use mmtk_openjdk.Stw.State.{threads_suspended, awaiting_count, unblocking, stopped, World, moved}
use mmtk_openjdk.Stw.Vm.{is_safe, all_safe}
use mmtk_openjdk.Stw.Worker.{raise_count}
use mmtk_openjdk.Stw.Mutator.{update, await_count, block_for_gc, yield}
use mmtk_openjdk.Stw.Schedule.{
  Actor, companion, vm, spurious_companion, worker, mutator, start, run,
}
use mmtk_openjdk.Stw.Protocol.{Protocol, has_stopped, holds_world}
use mmtk_openjdk.Stw.Protocol.Keeps.{run-Protocol}
use mmtk_openjdk.Stw.Safepoint.{is_starting}
use mmtk_openjdk.Stw.Safepoint.Runs.{Raised, stopped_world, raise_count-releases}
use mmtk_openjdk.Stw.Spec.{spec_start, view}
use mmtk_openjdk.Stw.Spec.Refines.{Follows, run-refines}
use mmtk_openjdk.Stw.Spec.Counts.{reads_next_count}
use mmtk_openjdk.Stw.Progress.{EndsWithin, is_done, stop_ends, start_ends}

-- The companion falls asleep; a mutator asks for a GC and blocks, and the other one yields; the
-- worker requests the stop.
abbrev to_request : List Actor
to_request =
    companion
    ∷ mutator 0 (block_for_gc 5000000)
    ∷ mutator 0 yield
    ∷ mutator 0 yield
    ∷ spurious_companion
    ∷ companion
    ∷ worker true
    ∷ mutator 1 yield
    ∷ []

-- The safepoint begins, and answers the request.
abbrev to_stop : List Actor
to_stop = to_request ++ companion ∷ companion ∷ vm ∷ vm ∷ worker true ∷ []

-- The worker raises the count.
abbrev to_raise : List Actor
to_raise = to_stop ++ worker false ∷ []

abbrev world_of : Option World → World
world_of none = start
world_of (some w) = w

abbrev requested : World
unfolding run start
requested = world_of (run 2 to_request start)

abbrev at_stop : World
unfolding run start
at_stop = world_of (run 2 to_stop start)

abbrev raised : World
unfolding run start
raised = world_of (run 2 to_raise start)

run-Protocol_example :
    (w : World) × (run 2 to_raise start ≡ some w)
    × Protocol w
    × ((i k : ℕ)
        → w.mutators i ≡ awaiting_count k
        → (is_starting w.worker ≡ true) ⊎ (w.start_the_world_count < k))
run-Protocol_example = run-Protocol 2 to_raise

to_stop_short : length to_stop + 1 < 2 ^ 64
to_stop_short = omega arith

to_stop_ends : run 2 to_stop start ≡ some at_stop
unfolding run start at_stop all_safe
to_stop_ends = refl

stopped_world_example :
    (at_stop.safepoint ≡ true)
    × (holds_world at_stop.vm ≡ true)
    × (at_stop.reached_state ≡ threads_suspended)
    × ((i : ℕ) → i < 2 → is_safe (at_stop.mutators i) ≡ true)
unfolding run start at_stop all_safe
stopped_world_example = stopped_world 2 to_stop at_stop to_stop_short to_stop_ends refl

-- The worker raises the count, and goes on until it has notified the mutators.
abbrev to_notify : List Actor
to_notify = worker false ∷ worker true ∷ vm ∷ worker true ∷ worker true ∷ []

abbrev notified : World
unfolding run start at_stop
notified = world_of (run 2 to_notify at_stop)

to_notify_ends : run 2 to_notify at_stop ≡ some notified
unfolding run start at_stop notified all_safe
to_notify_ends = refl

raise_count-releases_example :
    (at_stop.worker ≡ stopped → Raised 1 (raise_count at_stop))
    × (at_stop.start_the_world_count < notified.start_the_world_count
        → (await_count 1 0 notified
            ≡ moved (record notified { mutators = update notified.mutators 0 unblocking }))
          × (is_starting notified.worker ≡ false → notified.mutators 0 ≢ awaiting_count 1))
unfolding run start at_stop notified all_safe
raise_count-releases_example =
    raise_count-releases 2 to_stop to_notify at_stop notified 0 1 (omega arith) to_stop_ends
      to_notify_ends (omega arith) refl

requested-Protocol : Protocol requested
unfolding run start requested
requested-Protocol = ground arith

stop_ends_example : EndsWithin 2 has_stopped 18 requested
unfolding run start requested all_safe
stop_ends_example = stop_ends 2 requested requested-Protocol refl refl

raised-Protocol : Protocol raised
unfolding run start raised all_safe
raised-Protocol = ground arith

start_ends_example : EndsWithin 2 is_done 15 raised
unfolding run start raised all_safe
start_ends_example = start_ends 2 raised raised-Protocol refl

to_raise_short : length to_raise + 1 < 2 ^ 64
to_raise_short = omega arith

to_raise_ends : run 2 to_raise start ≡ some raised
unfolding run start raised all_safe
to_raise_ends = refl

run-refines_example : (view start ≡ spec_start) × Follows 2 (to_stop ++ to_notify) start
run-refines_example = run-refines 2 (to_stop ++ to_notify) (omega arith)

-- A mutator asks for a GC, and has yet to block.
abbrev to_ask : List Actor
to_ask = companion ∷ mutator 1 (block_for_gc 5000000) ∷ []

abbrev asked : World
unfolding run start
asked = world_of (run 2 to_ask start)

to_ask_short : length to_ask + 1 < 2 ^ 64
to_ask_short = omega arith

to_ask_ends : run 2 to_ask start ≡ some asked
unfolding run start asked
to_ask_ends = refl

reads_next_count_example : 1 ≡ asked.start_the_world_count + 1
unfolding run start asked
reads_next_count_example =
    reads_next_count 2 to_ask asked 1 1 to_ask_short to_ask_ends (omega arith) refl
