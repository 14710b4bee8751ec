-- ===== src/Finalizer.antt =====
-- The finalizer thread: `schedule` and `finalizer_thread_entry` (openjdk/mmtkFinalizerThread.cpp). The
-- answers of mmtk-core's `get_finalized_object` are part of the schedule.
pub mod Scheduled
use mmtk_openjdk.Base.{ℕ, Bool, true, false, Option, none, some, List, [], ◌∷◌, ◌++◌, if◌then◌else◌}

-- Where the thread stands.
pub data Pc : Type 0 where
  at_top : Pc  -- before the lock
  asleep : Pc  -- in `wait`
  notified : Pc  -- woken in `wait`
  finalizing : Pc  -- before a call of `get_finalized_object`

pub record Finalizer : Type 0 where
  pub is_scheduled : Bool
  pub pc : Pc
  pub finalized : List ℕ  -- the objects whose `finalize` was called

abbrev pub start : Finalizer
start = record { is_scheduled = false; pc = at_top; finalized = [] }

abbrev pub notify : Pc → Pc
notify asleep = notified
notify p = p

-- `schedule`, called by a GC thread
unfoldable pub schedule : Finalizer → Finalizer
schedule f = if f.is_scheduled then f else record f { is_scheduled = true; pc = notify f.pc }

-- The wait loop, with the request consumed behind it.
unfoldable pub await_schedule : Finalizer → Finalizer
await_schedule f =
    if f.is_scheduled
    then record f { is_scheduled = false; pc = finalizing }
    else record f { pc = asleep }

-- One round of the inner loop.
unfoldable pub finalize : Option ℕ → Finalizer → Finalizer
finalize none f = record f { pc = at_top }
finalize (some obj) f = record f { finalized = f.finalized ++ obj ∷ [] }

finalizer_at : Pc → Option ℕ → Finalizer → Finalizer
unfolding await_schedule finalize
finalizer_at at_top answer f = await_schedule f
finalizer_at asleep answer f = f
finalizer_at notified answer f = await_schedule f
finalizer_at finalizing answer f = finalize answer f

-- One step of `finalizer_thread_entry`; `answer` is what `get_finalized_object` gives if it is called.
unfoldable pub finalizer_step : (answer : Option ℕ) → Finalizer → Finalizer
unfolding finalizer_at
finalizer_step answer f = finalizer_at f.pc answer f

pub data Actor : Type 0 where
  gc : Actor
  finalizer : (answer : Option ℕ) → Actor
  spurious : Actor

unfoldable pub step : Actor → Finalizer → Finalizer
unfolding schedule finalizer_step
step gc f = schedule f
step (finalizer answer) f = finalizer_step answer f
step spurious f = record f { pc = notify f.pc }

unfoldable pub run : List Actor → Finalizer → Finalizer
unfolding step
run [] f = f
run (a ∷ rest) f = run rest (step a f)
