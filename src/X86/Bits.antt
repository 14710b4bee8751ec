-- ===== src/X86/Bits.antt =====
-- What the compiled barriers compute from the address of an object, and what the runtime does.
use mmtk_openjdk.Base.{
  ℕ, ◌+◌, ◌*◌, ◌/◌, ◌%◌, ◌^◌, ◌<◌, ◌≡◌, ◌≢◌, true, false, arith, ltb, ◌==◌, add64,
}
use mmtk_openjdk.Barriers.Metadata.{unlog_bit, load_byte, bit-add_bytes}

pub ==-≢ : (a b : ℕ) → a ≢ b → (a == b) ≡ false
==-≢ a b ne = ground arith

-- The bit that the code finds, with the address in the upper bytes of its register, is the unlog bit.
pub low_byte-unlog_bit :
    (base obj : ℕ) (bytes : ℕ → ℕ)
    → obj < 2 ^ 63
    → (base / 256 * 256 + load_byte bytes (add64 base (obj / 64)))
        / 2 ^ (obj / 8 % 8 % 2 ^ 32 % 64)
        % 2
      ≡ unlog_bit base bytes obj
unfolding unlog_bit
low_byte-unlog_bit base obj bytes small =
    let high : ltb obj (2 ^ 63) ≡ true = ground arith in
    let shift : obj / 8 % 8 % 2 ^ 32 % 64 ≡ obj / 8 % 8 = omega arith in
    let swap : base / 256 * 256 + load_byte bytes (add64 base (obj / 64))
        ≡ load_byte bytes (add64 base (obj / 64)) + base / 256 * 256 =
      omega arith in
    simp (high, shift, swap)
      (bit-add_bytes (load_byte bytes (add64 base (obj / 64))) (base / 256) (obj / 8 % 8)
        (omega arith))

-- The same with the byte zero-extended.
pub byte-unlog_bit :
    (base obj : ℕ) (bytes : ℕ → ℕ)
    → obj < 2 ^ 63
    → load_byte bytes (add64 base (obj / 64)) / 2 ^ (obj / 8 % 8 % 2 ^ 32 % 64) % 2
      ≡ unlog_bit base bytes obj
unfolding unlog_bit
byte-unlog_bit base obj bytes small =
    let high : ltb obj (2 ^ 63) ≡ true = ground arith in
    let shift : obj / 8 % 8 % 2 ^ 32 % 64 ≡ obj / 8 % 8 = omega arith in simp (high, shift)
