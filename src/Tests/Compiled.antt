-- ===== src/Tests/Compiled.antt =====
-- A compiled exchange, and compiled loads.
use mmtk_openjdk.Base.{
  ℕ, ◌≡◌, refl, inr, true, false, ◌&&◌, [], none, some, ◌==◌, if◌then◌else◌, arith,
}
use mmtk_openjdk.Barriers.Runtime.{satb_barrier, Settings, load_reference_barrier}
use mmtk_openjdk.Barriers.Access.{Machine}
use mmtk_openjdk.Compiled.C2
use mmtk_openjdk.Compiled.C2.{Store, UnknownLoad}
use mmtk_openjdk.Compiled.Calls.{IsTrue, load_at_resolved-unknown}
use mmtk_openjdk.Compiled.Stores.{c2}
use mmtk_openjdk.Barriers.Selected.{BarrierImpl}
use Prim.Native.String.{String}
use mmtk_openjdk.Tests.Cores.{small_core}

abbrev settings : Settings
settings = record { metadata_base = 0; barrier_fastpath = true }

abbrev machine : Machine small_core
machine = record {
  fields = λ a. if a == 72 then 640 else 0;
  metadata = λ a. 255;
  state = ((λ v. false), (λ obj. false), (λ a. false));
}

-- A store to an object that was allocated elsewhere.
abbrev unrelated : Store
unrelated = record {
  is_null = false;
  just_allocated = false;
  precise_offset = true;
  allocation = some 4;
  initializes = none;
}

-- What mmtk-core would answer after the first call is of no matter.
abbrev active : ℕ → String
active k = if k == 0 then "SATBBarrier" else "NoBarrier"

abbrev satb_parts : BarrierImpl
satb_parts = record {
  runtime = satb_barrier;
  assembler = satb_barrier;
  c1 = satb_barrier;
  c2 = satb_barrier;
}

abbrev unknown : UnknownLoad
unknown = record { constant_offset = some 12; is_array = false; is_no_reference = false }

unknown-IsTrue : IsTrue unknown 12 true
unknown-IsTrue = record {
  constant = inr refl;
  array = λ h. ground arith;
  other = λ h. ground arith;
}

load_at_resolved-unknown_example :
    C2.load_at_resolved 12 unknown true true false true true 12 true 1 320
    ≡ (if (12 == 12) && true then load_reference_barrier satb_barrier 1 320 else [])
load_at_resolved-unknown_example =
    load_at_resolved-unknown 12 unknown 12 true 1 320 unknown-IsTrue (omega arith)
