-- ===== src/Compiled/Lir/Loads.antt =====
-- The SATB barrier behind a load of the client compiler.
use mathlib.Core.List.{append-nil}
use mmtk_openjdk.Base.{
  ℕ, suc, ◌<◌, ◌≡◌, refl, sym, ap, ◌∙◌, Bool, true, false, not, ◌&&◌, ◌||◌, List, [], ◌∷◌, ◌++◌,
  none, some, ◌==◌, if◌then◌else◌, arith,
}
use mmtk_openjdk.Barriers.Metadata.{load_byte}
use mmtk_openjdk.Barriers.Runtime.{Settings, satb_barrier, load_reference_barrier}
use mmtk_openjdk.Compiled.Bits.{sign_extended}
use mmtk_openjdk.X86.Cpu.{Cpu, set}
use mmtk_openjdk.Compiled.Lir.{
  constant, Lir, move, move_byte, cmp, ref_load_barrier, branch_equal, branch_destination,
  continuation, cont_anonymous, lir_step, run,
}
use mmtk_openjdk.Compiled.Lir.Emit.{load_barrier, load_at_resolved}
use mmtk_openjdk.Compiled.Lir.Perform.{perform}
use mmtk_openjdk.Compiled.Lir.Operands.{IsKept}
use mmtk_openjdk.Compiled.Lir.Stubs.{ref_load_barrier-Makes}
use mmtk_openjdk.Compiled.Lir.Slow.{Leads, Calls, branch_behind}
use mmtk_openjdk.Compiled.Lir.Perform.{run-append}

module _ (clobber : (ℕ → ℕ) → ℕ → ℕ) (s : Settings) (is_referent : Bool) (n : ℕ) (c : Cpu)
    (flag_address result : ℕ) (below : result < n) where
  abbrev flag : ℕ
  flag = sign_extended (load_byte c.bytes flag_address)

  flag_code : List Lir
  flag_code = move (constant flag_address) n ∷ move_byte n none (suc n) ∷ cmp (suc n) 1 ∷ []

  abbrev with_flag : Cpu
  with_flag = set (suc n) flag (set n flag_address c)

  flag_state : Cpu
  flag_state = record with_flag { compared = (flag, 1) }

  step_flag : lir_step (move_byte n none (suc n)) (set n flag_address c) ≡ with_flag
  unfolding lir_step
  step_flag =
      ap (λ a. set (suc n) (sign_extended (load_byte c.bytes a)) (set n flag_address c))
        (ground arith)

  step_address : lir_step (move (constant flag_address) n) c ≡ set n flag_address c
  unfolding lir_step
  step_address = refl

  step_cmp : lir_step (cmp (suc n) 1) with_flag ≡ flag_state
  unfolding lir_step flag_state
  step_cmp = ap (λ x. record with_flag { compared = (x, 1) }) (ground arith)

  flag_code-run : run clobber s is_referent flag_code none c ≡ (none, flag_state)
  unfolding run flag_code
  flag_code-run = rw (step_address, step_flag, step_cmp) refl

  flag_state-IsKept : IsKept n c flag_state
  unfolding flag_state
  flag_state-IsKept = record {
    registers = λ a lt. ground arith;
    bytes = refl;
    words = refl;
    calls = refl;
  }

  flag_state-compared :
      (flag_state.compared.0 == flag_state.compared.1) ≡ (load_byte c.bytes flag_address == 1)
  unfolding flag_state
  flag_state-compared = ground arith

  -- Behind the referent check, or where there is none.
  checked :
      Leads clobber s is_referent n c
        (flag_code ++ branch_equal (ref_load_barrier result) ∷ branch_destination continuation ∷ [])
        (load_reference_barrier satb_barrier (load_byte c.bytes flag_address) (c.registers result))
  unfolding load_reference_barrier
  checked =
      let calls = load_reference_barrier satb_barrier 1 (c.registers result) in
      let stub = ref_load_barrier result in
      let (c', e, called, r, b, w) =
        branch_behind clobber s is_referent n c stub calls
          (ref_load_barrier-Makes clobber s n c result below) flag_code flag_state _ flag_code-run
          flag_state-IsKept flag_state-compared in
      (c', e, called ∙ ap (λ l. c.calls ++ l) (ground arith), r, b, w)

module _ (clobber : (ℕ → ℕ) → ℕ → ℕ) (s : Settings) (n : ℕ) (c : Cpu) (flag_address result : ℕ)
    (below : result < n) where
  load_barrier-Calls :
      (is_referent is_anonymous : Bool)
      → Calls clobber s is_referent n c (load_barrier flag_address is_anonymous result) (
          if is_anonymous && not is_referent
          then []
          else load_reference_barrier satb_barrier
              (load_byte c.bytes flag_address)
              (c.registers result))
  unfolding load_barrier perform flag_code run lir_step
  load_barrier-Calls is_referent false =
      let (c', e, called, r, b, w) = checked clobber s is_referent n c flag_address result below in
      (suc (suc n), c', ap (λ z. some (tt, suc (suc n), z)) e, called, r, b, w)
  load_barrier-Calls true true =
      let (c', e, called, r, b, w) = checked clobber s true n c flag_address result below in
      let rest = branch_destination cont_anonymous ∷ [] in
      let body =
        flag_code clobber s true n c flag_address result below
        ++ branch_equal (ref_load_barrier result) ∷ branch_destination continuation ∷ [] in
      (
        suc (suc n),
        c',
        ap (λ z. some (tt, suc (suc n), z))
            (run-append clobber s true body rest none c
              ∙ ap (λ st. run clobber s true rest st.0 st.1) e),
        called,
        r,
        b,
        w,
      )
  load_barrier-Calls false true =
      (suc (suc n), c, refl, sym (append-nil c.calls), λ a lt. refl, refl, refl)

  -- Whatever a C call leaves in the registers, and whatever the referent check finds: for a weak or phantom
  -- load, or one of unknown strength, into a register in use, the code of the barrier behind the load
  -- runs to its end, its stub included. It makes no call where the strength is unknown and the check says
  -- that the load is of no referent, and else the calls of the runtime load barrier for the byte of the
  -- marking flag and the loaded value; and it leaves the registers in use and the memory as they are.
  pub load_at_resolved-Calls :
      (is_referent is_weak is_phantom is_anonymous : Bool)
      → (is_weak || is_phantom || is_anonymous) ≡ true
      → Calls clobber s is_referent n c
          (load_at_resolved flag_address true is_weak is_phantom is_anonymous result)
          (if is_anonymous && not is_referent
            then []
            else load_reference_barrier satb_barrier
                (load_byte c.bytes flag_address)
                (c.registers result))
  unfolding load_at_resolved
  load_at_resolved-Calls is_referent is_weak is_phantom is_anonymous weak =
      rw weak (load_barrier-Calls is_referent is_anonymous)
