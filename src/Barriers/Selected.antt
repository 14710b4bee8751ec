-- ===== src/Barriers/Selected.antt =====
-- The barrier set, put together from the selected barrier: `get_selected_barrier` with its static variable and the
-- constructor of `MMTkBarrierSet` (openjdk/mmtkBarrierSet.cpp), `MMTkBarrierImpl` (openjdk/mmtkBarrierSet.hpp) and
-- its three instances in openjdk/barriers/.
use mathlib.Core.Option
use mathlib.Core.Option.{some-injective, none-ne-some}
use Prim.Native.String.{String}
use mmtk_openjdk.Base.{ℕ, ◌≡◌, refl, sym, ◌∙◌, Option, none, some}
use mmtk_openjdk.Barriers.Runtime.{
  Barrier, no_barrier, object_barrier, satb_barrier, get_selected_barrier,
}

-- The parts of a barrier, each named for the barrier whose class it is.
pub record BarrierImpl : Type 0 where
  pub runtime : Barrier
  pub assembler : Barrier
  pub c1 : Barrier
  pub c2 : Barrier

-- `MMTkNoBarrier`, `MMTkObjectBarrier` and `MMTkSATBBarrier`
unfoldable pub barrier_impl : Barrier → BarrierImpl
barrier_impl no_barrier = record {
  runtime = no_barrier;
  assembler = no_barrier;
  c1 = no_barrier;
  c2 = no_barrier;
}
barrier_impl object_barrier = record {
  runtime = object_barrier;
  assembler = object_barrier;
  c1 = object_barrier;
  c2 = object_barrier;
}
barrier_impl satb_barrier = record {
  runtime = satb_barrier;
  assembler = satb_barrier;
  c1 = satb_barrier;
  c2 = satb_barrier;
}

-- `get_selected_barrier`, with the value of its static variable, and what `mmtk_active_barrier` returns if it
-- is asked; the result is the variable's value from then on, and `none` the failed guarantee.
unfoldable pub selected : (selected_barrier : Option Barrier) → (active : String) → Option Barrier
selected (some b) active = some b
selected none active = get_selected_barrier active

infixl 1 ◌>>=◌
abbrev ◌>>=◌ {ℓ κ} : {A : Type ℓ} {B : Type κ} → Option A → (A → Option B) → Option B
none >>= f = none
some a >>= f = f a

-- The rest of the constructor, behind the first call.
unfoldable pub parts_from : (active : ℕ → String) → Barrier → Option BarrierImpl
unfolding selected barrier_impl
parts_from active first = do
  second ← selected (some first) (active 1)
  third ← selected (some second) (active 2)
  fourth ← selected (some third) (active 3)
  some (record {
    runtime = (barrier_impl fourth).runtime;
    assembler = (barrier_impl first).assembler;
    c1 = (barrier_impl second).c1;
    c2 = (barrier_impl third).c2;
  })

-- The constructor, with what `mmtk_active_barrier` returns at each of the four calls.
unfoldable pub new_barrier_set : (active : ℕ → String) → Option BarrierImpl
unfolding selected parts_from
new_barrier_set active = do first ← selected none (active 0); parts_from active first

parts_from_lem : (active : ℕ → String) (b : Barrier) → parts_from active b ≡ some (barrier_impl b)
unfolding parts_from selected
parts_from_lem active b = refl

bind_parts :
    (active : ℕ → String) (o : Option Barrier)
    → (o >>= parts_from active) ≡ Option.map barrier_impl o
bind_parts active none = refl
bind_parts active (some b) = parts_from_lem active b

-- The name that is asked for first decides all parts.
pub new_barrier_set_lem :
    (active : ℕ → String)
    → new_barrier_set active ≡ Option.map barrier_impl (get_selected_barrier (active 0))
unfolding new_barrier_set selected
new_barrier_set_lem active = bind_parts active (get_selected_barrier (active 0))

abbrev IsOneOf : Option BarrierImpl → BarrierImpl → Type 0
IsOneOf o i = o ≡ some i → (b : Barrier) × (i ≡ barrier_impl b)

one_of : (o : Option Barrier) (i : BarrierImpl) → IsOneOf (Option.map barrier_impl o) i
one_of none i e = absurd (none-ne-some i e)
one_of (some b) i e = (b, sym (some-injective _ _ e))

pub new_barrier_set-one :
    (active : ℕ → String) (i : BarrierImpl)
    → new_barrier_set active ≡ some i
    → (b : Barrier) × (i ≡ barrier_impl b)
new_barrier_set-one active i e =
    one_of (get_selected_barrier (active 0)) i (sym (new_barrier_set_lem active) ∙ e)
