-- ===== src/Compiled/Lir/Slow.antt =====
-- The branch to a stub, and what it calls.
use mathlib.Core.List.{append-nil}
use mmtk_openjdk.Base.{
  ℕ, suc, ◌<◌, ◌≡◌, refl, sym, subst, ap, ◌∙◌, Bool, true, false, List, [], ◌∷◌, ◌++◌, Option, none,
  some, ◌==◌, if◌then◌else◌,
}
use mmtk_openjdk.Barriers.Runtime.{CoreCall, Settings}
use mmtk_openjdk.Compiled.Bits.{compiled_bit}
use mmtk_openjdk.X86.Cpu.{Cpu, exec}
use mmtk_openjdk.Compiled.Lir.{
  Lir, Stub, emit_code, continuation, branch_equal, jump, branch_destination, lir_step, run_stub,
  run,
}
use mmtk_openjdk.Compiled.Lir.Emit.{Gen, ◌>>◌, emit, branch_if_unlogged}
use mmtk_openjdk.Compiled.Lir.Bit.{
  tested, tested-compared, tested-IsKept, bit_code, bit_code-tested, found-bit,
}
use mmtk_openjdk.Compiled.Lir.Perform.{run-append, perform}
use mmtk_openjdk.Compiled.Lir.Operands.{IsKept}
use mmtk_openjdk.Compiled.Lir.Stubs.{Makes}

module _ (clobber : (ℕ → ℕ) → ℕ → ℕ) (s : Settings) where
  -- The code runs to its end with these calls, and leaves the memory and the registers below `n` as they
  -- are.
  abbrev pub Leads : Bool → ℕ → Cpu → List Lir → List CoreCall → Type 0
  Leads is_referent n c code made =
      (c' : Cpu) × (run clobber s is_referent code none c ≡ (none, c'))
      × (c'.calls ≡ c.calls ++ made)
      × ((a : ℕ) → a < n → c'.registers a ≡ c.registers a)
      × (c'.bytes ≡ c.bytes)
      × (c'.words ≡ c.words)

  -- From a first free register on: what the generator's code does.
  abbrev pub Calls : Bool → ℕ → Cpu → Gen (Unit {0}) → List CoreCall → Type 0
  Calls is_referent n c g made =
      (n' : ℕ) × (c' : Cpu) × (perform clobber s is_referent g n (none, c)
        ≡ some (tt, n', (none, c')))
      × (c'.calls ≡ c.calls ++ made)
      × ((a : ℕ) → a < n → c'.registers a ≡ c.registers a)
      × (c'.bytes ≡ c.bytes)
      × (c'.words ≡ c.words)

  module _ (is_referent : Bool) (n : ℕ) (c : Cpu) (st : Stub) (calls : List CoreCall)
      (makes : Makes clobber s n c st calls) where
    arrives :
        (to : Option ℕ) (c' : Cpu)
        → to ≡ some continuation
        → run clobber s is_referent (branch_destination continuation ∷ []) to c' ≡ (none, c')
    unfolding run
    arrives to c' at =
        subst
          (λ x. run clobber s is_referent (branch_destination continuation ∷ []) x c' ≡ (none, c'))
          (sym at) refl

    pub jump_run : Leads is_referent n c (jump st ∷ branch_destination continuation ∷ []) calls
    unfolding run run_stub
    jump_run =
        let (at, called, kept, b, w) = makes c (λ a lt. refl) in
        let c' = (exec clobber (emit_code s st) none c).1 in
        (c', arrives _ c' at, called, kept, b, w)

    pub jump-Calls :
        Calls is_referent n c
          (emit (jump st ∷ []) >> emit (branch_destination continuation ∷ []))
          calls
    unfolding perform
    jump-Calls =
        let (c', e, called, kept, b, w) = jump_run in
        (n, c', ap (λ z. some (tt, n, z)) e, called, kept, b, w)

    leads_on :
        (code rest : List Lir) (c₁ : Cpu)
        → run clobber s is_referent code none c ≡ (none, c₁)
        → run clobber s is_referent (code ++ rest) none c ≡ run clobber s is_referent rest none c₁
    leads_on code rest c₁ leads =
        run-append clobber s is_referent code rest none c
        ∙ ap (λ st. run clobber s is_referent rest st.0 st.1) leads

    -- The branch, taken or not, ends behind it.
    abbrev Continues : Bool → Cpu → Cpu → Type 0
    Continues taken c₁ c' =
        let (to, c₂) = run_stub clobber s is_referent taken st c₁ in
        run clobber s is_referent (branch_destination continuation ∷ []) to c₂ ≡ (none, c')

    -- Code in front of the branch leads to `c₁`, where the comparison says `b`.
    pub branch_behind :
        (code : List Lir) (c₁ : Cpu) (b : Bool)
        → run clobber s is_referent code none c ≡ (none, c₁)
        → IsKept n c c₁
        → (c₁.compared.0 == c₁.compared.1) ≡ b
        → Leads is_referent n c
            (code ++ branch_equal st ∷ branch_destination continuation ∷ [])
            (if b then calls else [])
    unfolding run run_stub lir_step
    branch_behind code c₁ true leads kept taken =
        let rest = branch_equal st ∷ branch_destination continuation ∷ [] in
        let (at, called, r, b, w) = makes c₁ kept.registers in
        let slow = (exec clobber (emit_code s st) none c₁).1 in
        (
          slow,
          leads_on code rest c₁ leads
              ∙ subst (λ b. Continues b c₁ slow) (sym taken) (arrives _ slow at),
          subst (λ l. slow.calls ≡ l ++ calls) kept.calls called,
          λ a l. r a l ∙ kept.registers a l,
          b ∙ kept.bytes,
          w ∙ kept.words,
        )
    branch_behind code c₁ false leads kept passed =
        let rest = branch_equal st ∷ branch_destination continuation ∷ [] in
        (
          c₁,
          leads_on code rest c₁ leads ∙ subst (λ b. Continues b c₁ c₁) (sym passed) refl,
          kept.calls ∙ sym (append-nil c.calls),
          kept.registers,
          kept.bytes,
          kept.words,
        )

    pub branch-Calls :
        (src : ℕ)
        → src < n
        → Calls is_referent n c
            (branch_if_unlogged s src st >> emit (branch_destination continuation ∷ []))
            (if compiled_bit s.metadata_base c.bytes (c.registers src) == 1 then calls else [])
    unfolding perform branch_if_unlogged bit_code
    branch-Calls src lt =
        let bit =
          ap (λ p. p.0 == p.1) (tested-compared s src n lt c)
          ∙ ap (λ b. b == 1) (found-bit s src n lt c) in
        let (c', ends, called, r, b, w) =
          branch_behind (bit_code s src n lt c) (tested s src n lt c) _
            (bit_code-tested s src n lt c clobber is_referent) (tested-IsKept s src n lt c) bit in
        (
          suc (suc (suc (suc n))),
          c',
          ap (λ z. some (tt, suc (suc (suc (suc n))), z)) ends,
          called,
          r,
          b,
          w,
        )
