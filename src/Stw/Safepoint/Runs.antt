-- ===== src/Stw/Safepoint/Runs.antt =====
-- What holds in every world that a schedule leads to: a stopped world is at a safepoint, and
-- `mmtk_block_for_gc` neither misses its GC nor sleeps through it.
use mmtk_openjdk.Base.{
  ℕ, suc, subst, ◌+◌, ◌^◌, ◌≤◌, ◌<◌, ◌≡◌, ◌≢◌, refl, true, false, Option, none, some, List, [], ◌∷◌,
  arith, length,
}
use mmtk_openjdk.Stw.State.{
  threads_suspended, unblocking, MutatorPc, has_read, in_vm, awaiting_count, count_notified,
  stopped, World, Outcome, moved, blocked, assertion_failed,
}
use mmtk_openjdk.Stw.Vm.{is_safe}
use mmtk_openjdk.Stw.Worker.{raise_count}
use mmtk_openjdk.Stw.Mutator.{update, await_count}
use mmtk_openjdk.Stw.Schedule.{Actor, step, start, continue, proceed, run}
use mmtk_openjdk.Stw.Protocol.{Protocol, has_stopped, holds_world}
use mmtk_openjdk.Stw.Protocol.Keeps.{Keeps, step-Keeps, start-Protocol}
use mmtk_openjdk.Stw.Safepoint.{
  AllFit, FitsAfter, CountAfter, step-FitsAfter, step-CountAfter, is_starting,
}

-- The count of a mutator that is inside `mmtk_block_for_gc`.
abbrev pub waits_for : MutatorPc → Option ℕ
waits_for (has_read k) = some k
waits_for (in_vm k) = some k
waits_for (awaiting_count k) = some k
waits_for (count_notified k) = some k
waits_for _ = none

-- The invariant of a world with `n` mutators, `budget` steps before the count could wrap.
pub record Sound (n budget : ℕ) (w : World) : Type 0 where
  pub protocol : Protocol w
  pub fits : AllFit n w
  pub room : w.start_the_world_count + budget + 1 < 2 ^ 64

-- The step raises the count to `k` at least.
abbrev pub Raised : ℕ → Outcome → Type 0
Raised k (moved w) = k ≤ w.start_the_world_count
Raised k _ = ⊥

abbrev pub SoundAfter : ℕ → ℕ → Option World → Type 0
SoundAfter n budget none = ⊥
SoundAfter n budget (some w) = Sound n budget w

pub step-Sound :
    (n budget : ℕ) (a : Actor) (w : World)
    → Sound n (suc budget) w
    → (o : Outcome) → step n a w ≡ o
    → SoundAfter n budget (proceed w o)
step-Sound n budget a w s (moved w') e = record {
  protocol = subst Keeps e (step-Keeps n a w s.protocol);
  fits = λ i lt.
      subst (FitsAfter i w) e
        (step-FitsAfter n w s.protocol (omega (arith, s.room)) i lt (s.fits i lt) a);
  room = omega (arith, s.room, subst (CountAfter w) e (step-CountAfter n w a));
}
step-Sound n budget a w s blocked e = record {
  protocol = s.protocol;
  fits = s.fits;
  room = omega (arith, s.room);
}
step-Sound n budget a w s assertion_failed e = subst Keeps e (step-Keeps n a w s.protocol)

continue-Sound :
    (n budget extra : ℕ) (m : Option World) (k : World → Option World)
    → SoundAfter n budget m
    → ((w : World) → Sound n budget w → SoundAfter n extra (k w))
    → SoundAfter n extra (continue m k)
continue-Sound n budget extra none k h next = h
continue-Sound n budget extra (some w) k h next = next w h

run-SoundAfter :
    (n extra : ℕ) (actors : List Actor) (w : World)
    → Sound n (length actors + extra) w
    → SoundAfter n extra (run n actors w)
unfolding run
run-SoundAfter n extra [] w s = record {
  protocol = s.protocol;
  fits = s.fits;
  room = omega (arith, s.room);
}
run-SoundAfter n extra (a ∷ rest) w s =
    continue-Sound n (length rest + extra) extra _ (run n rest)
      (step-Sound n (length rest + extra) a w (more_room s) (step n a w) refl)
      (λ w' s'. run-SoundAfter n extra rest w' s')
  where
    more_room : Sound n (length (a ∷ rest) + extra) w → Sound n (suc (length rest + extra)) w
    more_room s = record { protocol = s.protocol; fits = s.fits; room = omega (arith, s.room) }

pub start-Sound : (n budget : ℕ) → budget + 1 < 2 ^ 64 → Sound n budget start
unfolding start
start-Sound n budget h = record {
  protocol = start-Protocol;
  fits = λ i lt. refl;
  room = omega arith;
}

-- A schedule short enough that the count cannot wrap, and the world that it leads to.
module _ (n : ℕ) (actors : List Actor) (w : World) (short : length actors + 1 < 2 ^ 64)
    (ends : run n actors start ≡ some w) where
  run-Sound : Sound n 0 w
  run-Sound =
      subst (SoundAfter n 0) ends
        (run-SoundAfter n 0 actors start (start-Sound n (length actors + 0) (omega (arith, short))))

  -- After fewer than 2 ^ 64 - 1 steps from the initial world: once the worker's request to stop is
  -- answered, and until it requests the start, the safepoint is on, the VM thread stands in
  -- `do_mmtk_stw_operation`, the reached state is `_threads_suspended`, and each of the `n` mutators is
  -- at a yieldpoint or blocked, none in Java code or before its `ThreadBlockInVM`.
  pub stopped_world :
      has_stopped w.worker ≡ true
      → (w.safepoint ≡ true)
        × (holds_world w.vm ≡ true)
        × (w.reached_state ≡ threads_suspended)
        × ((i : ℕ) → i < n → is_safe (w.mutators i) ≡ true)
  stopped_world h =
      let p = run-Sound.protocol in
      (ground arith, ground arith, ground arith, λ i lt. ground (arith, run-Sound.fits i lt))

-- After a run of `actors` and then of `later` from the initial world, fewer than 2 ^ 64 - 1 steps in all, for a mutator
-- that was in `mmtk_block_for_gc` in between, waiting for a count: if the worker had the world stopped then, raising
-- the count reaches this count; once the count has been raised, the head of the wait loop lets the mutator pass; and
-- once the mutators have been notified of it, the mutator is not asleep for this count.
pub raise_count-releases :
    (n : ℕ) (actors later : List Actor) (w w' : World) (i k : ℕ)
    → length actors + length later + 1 < 2 ^ 64
    → run n actors start ≡ some w
    → run n later w ≡ some w'
    → i < n
    → waits_for (w.mutators i) ≡ some k
    → (w.worker ≡ stopped → Raised k (raise_count w))
      × (w.start_the_world_count < w'.start_the_world_count
          → (await_count k i w' ≡ moved (record w' { mutators = update w'.mutators i unblocking }))
            × (is_starting w'.worker ≡ false → w'.mutators i ≢ awaiting_count k))
unfolding raise_count await_count
raise_count-releases n actors later w w' i k short ends ends' lt e =
    let s : Sound n (length later) w = subst (SoundAfter n (length later)) ends (
      run-SoundAfter n (length later) actors start
        (start-Sound n (length actors + length later) short)) in
    let s' : Sound n 0 w' = subst (SoundAfter n 0) ends' (
      run-SoundAfter n 0 later w
        (record { protocol = s.protocol; fits = s.fits; room = omega (arith, s.room) })) in
    (
      λ g. ground (arith, s.fits i lt, s.room),
      λ raised. (ground (arith, s.fits i lt), ground (arith, s.fits i lt, s'.fits i lt)),
    )
