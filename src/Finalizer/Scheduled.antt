-- ===== src/Finalizer/Scheduled.antt =====
-- No request of the finalizer is lost.
use mmtk_openjdk.Base.{◌≡◌, ◌≢◌, ◌⊎◌, inl, inr, Bool, true, false, ◌||◌, none, List, [], ◌∷◌, arith}
use mmtk_openjdk.Finalizer.{
  Pc, asleep, finalizing, Finalizer, start, schedule, Actor, finalizer, step, run,
}

-- The thread sleeps only when no request waits.
abbrev pub IsAwake : Finalizer → Type 0
IsAwake f = f.is_scheduled ≡ true → f.pc ≢ asleep

step-IsAwake : (a : Actor) (f : Finalizer) → IsAwake f → IsAwake (step a f)
unfolding step
step-IsAwake a f h = ground arith

run-IsAwake : (actors : List Actor) (f : Finalizer) → IsAwake f → IsAwake (run actors f)
unfolding run
run-IsAwake [] f h = h
run-IsAwake (a ∷ rest) f h = run-IsAwake rest (step a f) (step-IsAwake a f h)

-- Does the step learn from mmtk-core that no object is left?
abbrev pub empties : Actor → Pc → Bool
empties (finalizer none) finalizing = true
empties _ _ = false

-- Does a step of the run?
abbrev pub some_step_empties : List Actor → Finalizer → Bool
some_step_empties [] f = false
some_step_empties (a ∷ rest) f = empties a f.pc || some_step_empties rest (step a f)

-- A request waits, or is being served.
record IsBusy (f : Finalizer) : Type 0 where
  awake : f.pc ≢ asleep
  busy : (f.is_scheduled ≡ true) ⊎ (f.pc ≡ finalizing)

step-IsBusy : (a : Actor) (f : Finalizer) → IsBusy f → (empties a f.pc ≡ true) ⊎ IsBusy (step a f)
unfolding step
step-IsBusy a f b = ground arith

run-empties :
    (actors : List Actor) (f : Finalizer)
    → IsBusy f
    → (run actors f).pc ≡ asleep
    → some_step_empties actors f ≡ true
unfolding run
run-empties [] f b h = absurd (b.awake h)
run-empties (a ∷ rest) f b h = elim (step-IsBusy a f b) [
  | inl e ↦ simp e
  | inr next ↦ (let later = run-empties rest (step a f) next h in ground arith)
]

schedule-IsBusy : (f : Finalizer) → IsAwake f → IsBusy (schedule f)
unfolding schedule
schedule-IsBusy f h = ground arith

-- Whatever happens before a request and after it, with any answers of mmtk-core and any spurious
-- wake-ups: where the finalizer thread is asleep at the end, it has been told after the request that
-- no object is left to finalize; and at no time does it sleep while a request waits.
pub schedule-empties :
    (before behind : List Actor)
    → let f = run before start in
      ((run behind (schedule f)).pc ≡ asleep → some_step_empties behind (schedule f) ≡ true)
      × (f.is_scheduled ≡ true → f.pc ≢ asleep)
schedule-empties before behind =
    let awake = run-IsAwake before start (λ h. ground arith) in
    (run-empties behind _ (schedule-IsBusy (run before start) awake), awake)
