-- ===== src/Stw/Mutator.antt =====
-- A mutator: `mmtk_block_for_gc` (openjdk/mmtkUpcalls.cpp), and its stops at yieldpoints, which are
-- OpenJDK's.
use mmtk_openjdk.Base.{ℕ, ◌+◌, ◌/◌, ◌%◌, ◌^◌, ltb, ◌==◌, if◌then◌else◌}
use mmtk_openjdk.Stw.State.{
  MutatorPc, in_java, at_yieldpoint, has_read, in_vm, awaiting_count, count_notified, unblocking,
  World, Outcome, moved, blocked,
}

abbrev pub update : (ℕ → MutatorPc) → ℕ → MutatorPc → ℕ → MutatorPc
update m i p j = if i == j then p else m j

set_mutator : ℕ → MutatorPc → World → Outcome
set_mutator i p w = moved (record w { mutators = update w.mutators i p })

-- The start of `mmtk_block_for_gc`: the time, and the count that ends the wait. `now` is
-- `os::javaTimeNanos()`.
unfoldable pub read_count : ℕ → ℕ → World → Outcome
unfolding set_mutator
read_count now i w =
    set_mutator i (has_read ((w.start_the_world_count + 1) % 2 ^ 64))
      (record w { last_gc_time = now / 1000000 })

-- The head of the wait loop of `mmtk_block_for_gc`.
unfoldable pub await_count : ℕ → ℕ → World → Outcome
unfolding set_mutator
await_count next_count i w =
    set_mutator i
      (if ltb w.start_the_world_count next_count then awaiting_count next_count else unblocking) w

-- What a mutator in Java code does next: call `mmtk_block_for_gc` at a time, or stop at a yieldpoint.
pub data Choice : Type 0 where
  block_for_gc : (now : ℕ) → Choice
  yield : Choice

-- A mutator that has left Java code returns to it when no safepoint holds it.
resume_java : ℕ → World → Outcome
unfolding set_mutator
resume_java i w = if w.safepoint then blocked else set_mutator i in_java w

choose : Choice → ℕ → World → Outcome
unfolding read_count set_mutator
choose (block_for_gc now) i w = read_count now i w
choose yield i w = set_mutator i at_yieldpoint w

mutator_at : MutatorPc → Choice → ℕ → World → Outcome
unfolding choose set_mutator await_count resume_java
mutator_at in_java c i w = choose c i w
mutator_at at_yieldpoint c i w = resume_java i w
mutator_at (has_read k) c i w = set_mutator i (in_vm k) w
mutator_at (in_vm k) c i w = await_count k i w
mutator_at (awaiting_count k) c i w = blocked
mutator_at (count_notified k) c i w = await_count k i w
mutator_at unblocking c i w = resume_java i w

-- One step of mutator `i`.
unfoldable pub mutator_step : Choice → ℕ → World → Outcome
unfolding mutator_at
mutator_step c i w = mutator_at (w.mutators i) c i w
