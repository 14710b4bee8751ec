-- ===== src/X86/Eden/VoBit.antt =====
-- The valid-object bit that the emitted allocation fast path sets.
use Prim.Native.Nat.{bit_or}
use mmtk_openjdk.Base.{
  ℕ, ◌+◌, ◌*◌, ◌/◌, ◌%◌, ◌^◌, ◌≡◌, ◌≢◌, refl, ◌∙◌, ap, true, ◌||◌, none, ◌==◌, ==_refl, Bool-cases,
  inl, inr, if◌then◌else◌, u64, add64, arith,
}
use mmtk_openjdk.Barriers.Metadata.{IsAddress, load_byte}
use mmtk_openjdk.X86.Cpu.{rcx, rscratch1, Cpu, exec}
use mmtk_openjdk.X86.Bits.{==-≢}
use mmtk_openjdk.X86.Or.{byte_with_bit}
use mmtk_openjdk.X86.Eden.{rdi, is_mark_compact, Setup, set_vo_bit}
use mmtk_openjdk.Alloc.Expand.{Buffer, allocated, with_bit}
use mmtk_openjdk.Alloc.Expand as expand
use mmtk_openjdk.Alloc.Expand.VoBit.{SetsBit, set_vo_bit-SetsBit, vo_bit, stored, vo_bit-stored}

module _ (clobber : (ℕ → ℕ) → ℕ → ℕ) (s : Setup) (c : Cpu) (r : ℕ)
    (on : (s.enable_vo_bit || is_mark_compact s.tag) ≡ true) (n1 : r ≢ rdi) (n2 : r ≢ rscratch1)
    (n3 : r ≢ rcx) where
  set_vo_bit-exec :
      let (to, c') = exec clobber (set_vo_bit s r) none c in
      (to ≡ none)
      × (c'.words ≡ c.words)
      × (c'.registers r ≡ c.registers r)
      × ((a : ℕ) → c'.bytes a ≡ stored s c.bytes (c.registers r) a)
  unfolding set_vo_bit exec stored
  set_vo_bit-exec =
      let e1 = ==-≢ r rdi n1 in
      let e2 = ==-≢ r rscratch1 n2 in
      let e3 = ==-≢ r rcx n3 in simp (on, e1, e2, e3) (refl, refl, refl, same_byte)
    where
      obj : ℕ
      obj = c.registers r

      same_byte :
          (a : ℕ)
          → (if a == add64 s.vo_bit_base (obj / 64)
              then bit_or
                  (s.vo_bit_base / 256 * 256 + load_byte c.bytes (add64 s.vo_bit_base (obj / 64)))
                  (u64 (1 * 2 ^ (obj / 8 % 8 % 64)))
                % 256
              else c.bytes a)
            ≡ stored s c.bytes obj a
      same_byte a =
          let byte =
            byte_with_bit (s.vo_bit_base / 256) (load_byte c.bytes (add64 s.vo_bit_base (obj / 64)))
              (obj / 8 % 8) (omega arith) (omega arith) in
          elim (Bool-cases (a == add64 s.vo_bit_base (obj / 64))) [
            | inl e ↦
                (let at : a ≡ add64 s.vo_bit_base (obj / 64) = ground arith in
                  rw at (simp ==_refl byte))
            | inr ne ↦ simp ne
          ]

-- Where valid-object bits are built in, or the default allocator is that of mark-compact, with a register
-- for the object that is none of the three that the code works with, and an object at a multiple of 8:
-- the code that the assembler emits runs to its end, keeps the object and all words, sets the object's
-- valid-object bit and leaves the bit of every other address; and what the server compiler's fast path
-- does to the bits is the same.
pub set_vo_bit-sets :
    (clobber : (ℕ → ℕ) → ℕ → ℕ) (s : Setup) (c : Cpu) (r : ℕ) (b : Buffer)
    → (s.enable_vo_bit || is_mark_compact s.tag) ≡ true
    → r ≢ rdi
    → r ≢ rscratch1
    → r ≢ rcx
    → IsAddress (c.registers r)
    → let obj = c.registers r in
      let (to, c') = exec clobber (set_vo_bit s r) none c in
      (to ≡ none)
      × (c'.words ≡ c.words)
      × (c'.registers r ≡ obj)
      × ((a : ℕ) → IsAddress a → vo_bit s c'.bytes a ≡ (if a == obj then 1 else vo_bit s c.bytes a))
      × SetsBit s obj b (expand.set_vo_bit s (allocated obj b))
set_vo_bit-sets clobber s c r b on n1 n2 n3 ho =
    let (ends, words, kept, bytes) = set_vo_bit-exec clobber s c r on n1 n2 n3 in
    (
      ends,
      words,
      kept,
      (λ a ha.
          ap (λ byte. byte % 256 / 2 ^ (a / 8 % 8) % 2) (bytes (add64 s.vo_bit_base (a / 64)))
          ∙ vo_bit-stored s c.bytes (c.registers r) a ho ha),
      set_vo_bit-SetsBit s (c.registers r) b on ho,
    )
