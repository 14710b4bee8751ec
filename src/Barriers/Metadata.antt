-- ===== src/Barriers/Metadata.antt =====
-- The unlog bit of an object: bit (addr >> 3) & 7 of the metadata byte at base + (addr >> 6), as the
-- runtime barriers read it in C++ (openjdk/barriers/mmtkObjectBarrier.cpp,
-- openjdk/barriers/mmtkSATBBarrier.cpp). Words are of 64 bits, `intptr_t` by its bit pattern.
use mmtk_openjdk.Base.{
  ℕ, zero, suc, ◌+◌, ◌-◌, ◌*◌, ◌/◌, ◌%◌, ◌^◌, ◌<◌, ◌≡◌, Bool, arith, ltb, ◌==◌, if◌then◌else◌,
  add64,
}

-- `x >> k` for an `intptr_t`, whose sign is shifted in.
abbrev pub shift_right_signed : ℕ → ℕ → ℕ
shift_right_signed x k = if ltb x (2 ^ 63) then x / 2 ^ k else x / 2 ^ k + (2 ^ 64 - 2 ^ (64 - k))

-- A byte of memory.
abbrev pub load_byte : (ℕ → ℕ) → ℕ → ℕ
load_byte memory a = memory a % 256

-- `((byte_val >> shift) & 1)` of the runtime barriers.
unfoldable pub unlog_bit : ℕ → (ℕ → ℕ) → ℕ → ℕ
unlog_bit base memory addr =
    load_byte memory (add64 base (shift_right_signed addr 6))
    / 2 ^ (shift_right_signed addr 3 % 8)
    % 2

abbrev pub is_unlogged : ℕ → (ℕ → ℕ) → ℕ → Bool
is_unlogged base memory addr = unlog_bit base memory addr == 1

-- The address of an object: a word, and aligned.
abbrev pub IsAddress : ℕ → Type 0
IsAddress a = (a < 2 ^ 64) × (a % 8 ≡ 0)

-- A shift of at most 7 places, and the lowest bit, see the lowest byte only.
pub bit-add_bytes : (b h k : ℕ) → k < 8 → (b + h * 256) / 2 ^ k % 2 ≡ b / 2 ^ k % 2
bit-add_bytes b h zero lt = omega arith
bit-add_bytes b h (suc zero) lt = omega arith
bit-add_bytes b h (suc (suc zero)) lt = omega arith
bit-add_bytes b h (suc (suc (suc zero))) lt = omega arith
bit-add_bytes b h (suc (suc (suc (suc zero)))) lt = omega arith
bit-add_bytes b h (suc (suc (suc (suc (suc zero))))) lt = omega arith
bit-add_bytes b h (suc (suc (suc (suc (suc (suc zero)))))) lt = omega arith
bit-add_bytes b h (suc (suc (suc (suc (suc (suc (suc zero))))))) lt = omega arith
bit-add_bytes b h (suc (suc (suc (suc (suc (suc (suc (suc k)))))))) lt = absurd (omega arith)
