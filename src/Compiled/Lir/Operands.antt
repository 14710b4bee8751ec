-- ===== src/Compiled/Lir/Operands.antt =====
-- Operands that are put into registers, one and then three.
use mmtk_openjdk.Base.{ℕ, suc, ◌<◌, ◌≤◌, ◌≡◌, refl, ◌∙◌, Bool, Option, none, some, arith}
use mmtk_openjdk.Barriers.Runtime.{Settings}
use mmtk_openjdk.X86.Cpu.{Address, Cpu, set, effective}
use mmtk_openjdk.Compiled.Lir.{Operand, register, constant, address, value_of, lir_step, run}
use mmtk_openjdk.Compiled.Lir.Emit.{Gen, ◌>>=◌, in_register}
use mmtk_openjdk.Compiled.Lir.Perform.{perform, perform-then}

abbrev pub IsIndexBelow : ℕ → Option ℕ → Type 0
IsIndexBelow n none = Unit
IsIndexBelow n (some i) = i < n

abbrev pub IsAddressBelow : ℕ → Address → Type 0
IsAddressBelow n a = (a.base < n) × IsIndexBelow n a.index

-- The operand reads no register that is still free.
abbrev pub IsBelow : ℕ → Operand → Type 0
IsBelow n (register r) = r < n
IsBelow n (constant v) = Unit
IsBelow n (address a) = IsAddressBelow n a

-- The registers below the first free one, and the memory, stay as they are, and there is no call.
pub record IsKept (n : ℕ) (c c' : Cpu) : Type 0 where
  pub registers : (a : ℕ) → a < n → c'.registers a ≡ c.registers a
  pub bytes : c'.bytes ≡ c.bytes
  pub words : c'.words ≡ c.words
  pub calls : c'.calls ≡ c.calls

pub IsKept-refl : (n : ℕ) (c : Cpu) → IsKept n c c
IsKept-refl n c = record { registers = λ a h. refl; bytes = refl; words = refl; calls = refl }

pub IsKept-trans :
    {n m : ℕ} {c c' c'' : Cpu} → n ≤ m → IsKept n c c' → IsKept m c' c'' → IsKept n c c''
IsKept-trans le h k = record {
  registers = λ a lt. cc (h.registers a lt, k.registers a (omega arith));
  bytes = cc (h.bytes, k.bytes);
  words = cc (h.words, k.words);
  calls = cc (h.calls, k.calls);
}

pub effective-same :
    {n : ℕ} {r r' : ℕ → ℕ} (from : Address)
    → IsAddressBelow n from
    → ((a : ℕ) → a < n → r' a ≡ r a)
    → effective from r' ≡ effective from r
effective-same {n} {r} {r'} from (base, index) same =
    elim from.index
        as (λ i.
          IsIndexBelow n i
          → effective (record from { index = i }) r' ≡ effective (record from { index = i }) r) [
            | none ↦ (λ _. rw (same from.base base) refl)
            | some i ↦ (λ lt. rw (same from.base base, same i lt) refl)
          ]
      index

pub value_of-kept :
    {n : ℕ} {c c' : Cpu} (o : Operand)
    → IsBelow n o
    → IsKept n c c'
    → value_of o c'.registers ≡ value_of o c.registers
value_of-kept (register r) h k = k.registers r h
value_of-kept (constant v) h k = refl
value_of-kept (address a) h k = effective-same a h k.registers

pub IsAddressBelow-le :
    {n m : ℕ} (from : Address) → IsAddressBelow n from → n ≤ m → IsAddressBelow m from
IsAddressBelow-le {n} {m} from (base, index) le = (
  omega arith,
  elim from.index as (λ i. IsIndexBelow n i → IsIndexBelow m i) [
    | none ↦ (λ _. tt)
    | some i ↦ (λ lt. omega arith)
  ]
      index,
)

pub IsBelow-le : {n m : ℕ} (o : Operand) → IsBelow n o → n ≤ m → IsBelow m o
IsBelow-le (register r) h le = omega arith
IsBelow-le (constant v) h le = tt
IsBelow-le (address a) h le = IsAddressBelow-le a h le

pub IsKept-set : (n v : ℕ) (c : Cpu) → IsKept n c (set n v c)
IsKept-set n v c = record {
  registers = λ a lt. ground arith;
  bytes = refl;
  words = refl;
  calls = refl;
}

-- A generator that leaves the value of the operand in a register.
abbrev pub Loads : ((ℕ → ℕ) → ℕ → ℕ) → Settings → Bool → Gen ℕ → ℕ → Cpu → ℕ → Type 0
Loads clobber s is_referent g n c v =
    (r n' : ℕ) × (c' : Cpu) × (perform clobber s is_referent g n (none, c)
      ≡ some (r, n', (none, c')))
    × (n ≤ n')
    × (r < n')
    × (c'.registers r ≡ v)
    × IsKept n c c'

module _ (clobber : (ℕ → ℕ) → ℕ → ℕ) (s : Settings) (is_referent : Bool) (n : ℕ) (c : Cpu) where
  pub in_register_lem :
      (o : Operand)
      → IsBelow n o
      → Loads clobber s is_referent (in_register o) n c (value_of o c.registers)
  unfolding in_register perform run lir_step
  in_register_lem (register r) h = (r, n, c, refl, omega arith, h, refl, IsKept-refl n c)
  in_register_lem (constant v) h =
      (n, suc n, set n v c, refl, omega arith, omega arith, ground arith, IsKept-set n v c)
  in_register_lem (address a) h =
      let v = effective a c.registers in
      (n, suc n, set n v c, refl, omega arith, omega arith, ground arith, IsKept-set n v c)

-- The source, the slot and the new value of a store in registers, one behind the other, in front of `k`.
pub record ThreeLoaded (clobber : (ℕ → ℕ) → ℕ → ℕ) (s : Settings) (is_referent : Bool) (n : ℕ)
    (c : Cpu) (src new_val : Operand) (slot_gen : Gen ℕ) (slot : ℕ) : Type 1 where
  pub src' : ℕ
  pub slot' : ℕ
  pub new_val' : ℕ
  pub next : ℕ
  pub state : Cpu
  pub performed :
      (k : ℕ → ℕ → ℕ → Gen (Unit {0}))
      → perform clobber s is_referent
          (in_register src >>= λ a. slot_gen >>= λ b. in_register new_val >>= λ d. k a b d)
          n
          (none, c)
        ≡ perform clobber s is_referent (k src' slot' new_val') next (none, state)
  pub src_below : src' < next
  pub slot_below : slot' < next
  pub new_val_below : new_val' < next
  pub src_value : state.registers src' ≡ value_of src c.registers
  pub slot_value : state.registers slot' ≡ slot
  pub new_val_value : state.registers new_val' ≡ value_of new_val c.registers
  pub le : n ≤ next
  pub kept : IsKept n c state

pub three_loaded :
    (clobber : (ℕ → ℕ) → ℕ → ℕ) (s : Settings) (is_referent : Bool) (n : ℕ) (c : Cpu)
    (src new_val : Operand) (slot_gen : Gen ℕ) (slot : ℕ)
    → IsBelow n src
    → IsBelow n new_val
    → ((m : ℕ) (c₁ : Cpu) → n ≤ m → IsKept n c c₁ → Loads clobber s is_referent slot_gen m c₁ slot)
    → ThreeLoaded clobber s is_referent n c src new_val slot_gen slot
three_loaded clobber s is_referent n c src new_val slot_gen slot b₁ b₃ loads =
    let (r₁, n₁, c₁, e₁, le₁, lt₁, v₁, k₁) = in_register_lem clobber s is_referent n c src b₁ in
    let (r₂, n₂, c₂, e₂, le₂, lt₂, v₂, k₂) = loads n₁ c₁ le₁ k₁ in
    let le₁₂ : n ≤ n₂ = omega arith in
    let k₁₂ = IsKept-trans le₁ k₁ k₂ in
    let (r₃, n₃, c₃, e₃, le₃, lt₃, v₃, k₃) =
      in_register_lem clobber s is_referent n₂ c₂ new_val (IsBelow-le new_val b₃ le₁₂) in
    record {
      src' = r₁;
      slot' = r₂;
      new_val' = r₃;
      next = n₃;
      state = c₃;
      performed = λ k.
          perform-then clobber s is_referent (in_register src) n c e₁
            (λ a. slot_gen >>= λ b. in_register new_val >>= λ d. k a b d)
          ∙ perform-then clobber s is_referent slot_gen n₁ c₁ e₂
              (λ b. in_register new_val >>= λ d. k r₁ b d)
          ∙ perform-then clobber s is_referent (in_register new_val) n₂ c₂ e₃ (λ d. k r₁ r₂ d);
      src_below = omega arith;
      slot_below = omega arith;
      new_val_below = lt₃;
      src_value = k₃.registers r₁ (omega arith) ∙ k₂.registers r₁ lt₁ ∙ v₁;
      slot_value = k₃.registers r₂ lt₂ ∙ v₂;
      new_val_value = v₃ ∙ value_of-kept new_val b₃ k₁₂;
      le = omega arith;
      kept = IsKept-trans le₁₂ k₁₂ k₃;
    }
