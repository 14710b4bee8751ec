-- ===== src/X86/Elision.antt =====
-- What the emitters of the barriers share: decorators, types, and the test that drops a barrier
-- (openjdk/mmtkBarrierSetAssembler_x86.hpp).
use mmtk_openjdk.Base.{ℕ, Bool, true, false, not, ◌||◌, Option, none, some}

-- The types that the emitters tell apart.
pub data BasicType : Type 0 where
  t_object t_array t_other : BasicType

abbrev pub is_oop : BasicType → Bool
is_oop t_other = false
is_oop _ = true

-- `MMTkBarrierSetAssembler::can_remove_barrier`; a `val` of `none` is `noreg`.
unfoldable pub can_remove_barrier : (in_heap skip_const_null : Bool) → Option ℕ → Bool
can_remove_barrier in_heap skip_const_null none = not in_heap || skip_const_null
can_remove_barrier in_heap skip_const_null (some val) = not in_heap
