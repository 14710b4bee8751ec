-- ===== src/Tests/Finalizer.antt =====
-- A request that comes while an earlier one is served.
use mmtk_openjdk.Base.{◌≡◌, ◌≢◌, true, none, some, List, [], ◌∷◌}
use mmtk_openjdk.Finalizer.{asleep, start, schedule, Actor, gc, finalizer, run}
use mmtk_openjdk.Finalizer.Scheduled.{some_step_empties, schedule-empties}

abbrev earlier : List Actor
earlier = finalizer none ∷ gc ∷ finalizer none ∷ finalizer (some 64) ∷ []

abbrev later : List Actor
later = finalizer (some 72) ∷ finalizer none ∷ finalizer none ∷ finalizer none ∷ finalizer none ∷ []

schedule-empties_example :
    let f = run earlier start in
    ((run later (schedule f)).pc ≡ asleep → some_step_empties later (schedule f) ≡ true)
    × (f.is_scheduled ≡ true → f.pc ≢ asleep)
schedule-empties_example = schedule-empties earlier later
