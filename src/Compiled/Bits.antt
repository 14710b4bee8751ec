-- ===== src/Compiled/Bits.antt =====
-- The test of the unlog bit in 32-bit arithmetic, on a byte that the load extends with its sign.
use mmtk_openjdk.Base.{
  ℕ, ◌+◌, ◌-◌, ◌*◌, ◌/◌, ◌%◌, ◌^◌, ◌<◌, ◌≡◌, true, ltb, if◌then◌else◌, add64, arith, Bool-cases,
  inl, inr,
}
use mmtk_openjdk.Barriers.Metadata.{load_byte, unlog_bit, bit-add_bytes}

-- A byte in a register of 32 bits.
abbrev pub sign_extended : ℕ → ℕ
sign_extended b = if ltb b 128 then b else b + (2 ^ 24 - 1) * 256

-- `((byte >>> shift) & 1)`, where the address is shifted without its sign.
unfoldable pub compiled_bit : (base : ℕ) (bytes : ℕ → ℕ) (addr : ℕ) → ℕ
compiled_bit base bytes addr =
    let byte = sign_extended (load_byte bytes (add64 base (addr / 2 ^ 6))) in
    let shift = addr / 2 ^ 3 % 2 ^ 32 % 8 in byte / 2 ^ shift % 2

sign_extended_lem : (b k : ℕ) → k < 8 → sign_extended b / 2 ^ k % 2 ≡ b / 2 ^ k % 2
sign_extended_lem b k lt = elim (Bool-cases (ltb b 128)) [
  | inl low ↦ simp low
  | inr high ↦ simp high (bit-add_bytes b (2 ^ 24 - 1) k lt)
]

pub compiled_bit_lem :
    (base : ℕ) (bytes : ℕ → ℕ) (addr : ℕ)
    → addr < 2 ^ 63
    → compiled_bit base bytes addr ≡ unlog_bit base bytes addr
unfolding compiled_bit unlog_bit
compiled_bit_lem base bytes addr small =
    let high : ltb addr (2 ^ 63) ≡ true = ground arith in
    let shift : addr / 2 ^ 3 % 2 ^ 32 % 8 ≡ addr / 2 ^ 3 % 8 = omega arith in
    simp (high, shift)
      (sign_extended_lem (load_byte bytes (add64 base (addr / 2 ^ 6))) (addr / 2 ^ 3 % 8)
        (omega arith))
