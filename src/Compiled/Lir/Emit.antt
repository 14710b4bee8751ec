-- ===== src/Compiled/Lir/Emit.antt =====
-- `object_reference_write_post` of `MMTkObjectBarrierSetC1` (openjdk/barriers/mmtkObjectBarrier.cpp), and
-- `object_reference_write_pre` and `load_at_resolved` of `MMTkSATBBarrierSetC1`
-- (openjdk/barriers/mmtkSATBBarrier.cpp), as what they emit.
use mmtk_openjdk.Base.{
  ℕ, suc, Bool, false, not, ◌&&◌, ◌||◌, List, [], ◌∷◌, ◌++◌, Option, none, some, ◌==◌,
  if◌then◌else◌,
}
use mmtk_openjdk.Barriers.Runtime.{Settings}
use mmtk_openjdk.X86.Cpu.{Address}
use mmtk_openjdk.Compiled.Lir.{
  Operand, register, constant, address, Stub, post_barrier, pre_barrier, ref_load_barrier, Lir,
  move, leal, move_byte, unsigned_shift_right, unsigned_shift_right_int, unsigned_shift_right_by,
  logical_and, cmp, branch_equal, jump, branch_destination, referent_check, continuation,
  cont_anonymous,
}

-- What a `LIRGenerator` does from its next free register on: a result, the free register afterwards and
-- the code. `none` is a failed assertion.
abbrev pub Gen {ℓ} : Type ℓ → Type ℓ
Gen A = ℕ → Option (A × ℕ × List Lir)

abbrev pub pure {ℓ} : {A : Type ℓ} → A → Gen A
pure a next = some (a, next, [])

abbrev pub prepend {ℓ} :
    {A : Type ℓ} → List Lir → Option (A × ℕ × List Lir) → Option (A × ℕ × List Lir)
prepend code none = none
prepend code (some (a, next, more)) = some (a, next, code ++ more)

abbrev pub continue {ℓ κ} :
    {A : Type ℓ} {B : Type κ} → (A → Gen B) → Option (A × ℕ × List Lir) → Option (B × ℕ × List Lir)
continue f none = none
continue f (some (a, next, code)) = prepend code (f a next)

infixl 5 ◌>>=◌ ◌>>◌
abbrev pub ◌>>=◌ {ℓ κ} : {A : Type ℓ} {B : Type κ} → Gen A → (A → Gen B) → Gen B
(m >>= f) next = continue f (m next)

abbrev pub ◌>>◌ {ℓ κ} : {A : Type ℓ} {B : Type κ} → Gen A → Gen B → Gen B
m >> k = m >>= λ _. k

abbrev pub emit : List Lir → Gen (Unit {0})
emit code next = some (tt, next, code)

abbrev pub new_register : Gen ℕ
new_register next = some (next, suc next, [])

-- A register that holds the operand.
unfoldable pub in_register : Operand → Gen ℕ
in_register (register r) = pure r
in_register (constant v) = do reg ← new_register; emit (move (constant v) reg ∷ []); pure reg
in_register (address a) = do reg ← new_register; emit (leal a reg ∷ []); pure reg

-- `if (((byte_val >> shift) & 1) == 1) slow`
unfoldable pub branch_if_unlogged : Settings → (addr : ℕ) → Stub → Gen (Unit {0})
branch_if_unlogged s addr slow = do
  offset ← new_register
  emit (move (register addr) offset ∷ unsigned_shift_right offset 6 ∷ [])
  base ← new_register
  emit (move (constant s.metadata_base) base ∷ [])
  byte_val ← new_register
  emit (move_byte base (some offset) byte_val ∷ [])
  shift ← new_register
  emit (
      move (register addr) shift
      ∷ unsigned_shift_right_int shift 3
      ∷ logical_and shift 3
      ∷ unsigned_shift_right_by byte_val shift
      ∷ logical_and byte_val 1
      ∷ cmp byte_val 1
      ∷ branch_equal slow
      ∷ [])

unfoldable pub object_reference_write_post :
    Settings → (in_heap : Bool) → (src slot new_val : Operand) → Gen (Unit {0})
unfolding in_register branch_if_unlogged
object_reference_write_post s in_heap src slot new_val = if not in_heap then pure tt else do
  src' ← in_register src
  slot' ← in_register slot
  new_val' ← in_register new_val
  let slow = post_barrier src' slot' new_val'
  if s.barrier_fastpath then branch_if_unlogged s src' slow else emit (jump slow ∷ [])
  emit (branch_destination continuation ∷ [])

-- `!address->index()->is_valid() && address->disp() == 0`
abbrev pub has_base_only : Address → Bool
has_base_only a = elim a.index [ none ↦ a.disp == 0 | some _ ↦ false ]

-- `address->base()` where the address is that alone. A slot that is neither a register nor an address
-- fails the assertion of `as_address_ptr`.
unfoldable pub slot_in_register : Operand → Gen ℕ
slot_in_register (register r) = pure r
slot_in_register (constant v) = λ next. none
slot_in_register (address a) = do
  ptr ← new_register
  emit ((if has_base_only a then move (register a.base) ptr else leal a ptr) ∷ [])
  pure ptr

-- The slot of a store that needs patching, as an address.
unfoldable pub slot_as_address : Operand → Gen Address
slot_as_address (register r) = pure (record { base = r; index = none; scale = 1; disp = 0 })
slot_as_address (constant v) = λ next. none
slot_as_address (address a) = pure a

unfoldable pub jump_patched : (src : ℕ) → (slot : Address) → (new_val : ℕ) → Gen (Unit {0})
jump_patched src slot new_val = do
  scratch ← new_register
  emit (jump (pre_barrier (some (scratch, slot)) src scratch new_val) ∷ [])
  emit (branch_destination continuation ∷ [])

unfoldable pub write_pre_patched : (src slot new_val : Operand) → Gen (Unit {0})
unfolding in_register slot_as_address
write_pre_patched src slot new_val = do
  src' ← in_register src
  from ← slot_as_address slot
  new_val' ← in_register new_val
  jump_patched src' from new_val'

unfoldable pub write_pre_resolved : Settings → (src slot new_val : Operand) → Gen (Unit {0})
unfolding in_register slot_in_register branch_if_unlogged
write_pre_resolved s src slot new_val = do
  src' ← in_register src
  slot' ← slot_in_register slot
  new_val' ← in_register new_val
  let slow = pre_barrier none src' slot' new_val'
  if s.barrier_fastpath then branch_if_unlogged s src' slow else emit (jump slow ∷ [])
  emit (branch_destination continuation ∷ [])

unfoldable pub object_reference_write_pre :
    Settings → (in_heap needs_patching : Bool) → (src slot new_val : Operand) → Gen (Unit {0})
unfolding write_pre_patched write_pre_resolved
object_reference_write_pre s in_heap needs_patching src slot new_val =
    if not in_heap
    then pure tt
    else if needs_patching
    then write_pre_patched src slot new_val
    else write_pre_resolved s src slot new_val

unfoldable pub load_barrier :
    (flag_address : ℕ) → (is_anonymous : Bool) → (result : ℕ) → Gen (Unit {0})
load_barrier flag_address is_anonymous result = do
  emit (if is_anonymous then referent_check cont_anonymous ∷ [] else [])
  cm_flag_addr ← new_register
  emit (move (constant flag_address) cm_flag_addr ∷ [])
  cm_flag ← new_register
  emit (
      move_byte cm_flag_addr none cm_flag
      ∷ cmp cm_flag 1
      ∷ branch_equal (ref_load_barrier result)
      ∷ branch_destination continuation
      ∷ [])
  emit (if is_anonymous then branch_destination cont_anonymous ∷ [] else [])

-- The barrier behind the load of `result`; `flag_address` is that of `CONCURRENT_MARKING_ACTIVE`.
unfoldable pub load_at_resolved :
    (flag_address : ℕ)
    → (is_oop is_weak is_phantom is_anonymous : Bool) → (result : ℕ) → Gen (Unit {0})
unfolding load_barrier
load_at_resolved flag_address is_oop is_weak is_phantom is_anonymous result =
    if is_oop && (is_weak || is_phantom || is_anonymous)
    then load_barrier flag_address is_anonymous result
    else pure tt
