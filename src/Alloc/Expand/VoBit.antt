-- ===== src/Alloc/Expand/VoBit.antt =====
-- The valid-object bits that the server compiler's allocation fast path sets.
use mmtk_openjdk.Base.{
  ℕ, zero, suc, ◌/◌, ◌%◌, ◌^◌, ◌<◌, ◌≡◌, refl, true, false, ◌||◌, ◌==◌, ==_refl, if◌then◌else◌,
  add64, arith, Bool-cases, inl, inr,
}
use mmtk_openjdk.Barriers.Metadata.{IsAddress}
use mmtk_openjdk.X86.Eden.{Setup, is_mark_compact}
use mmtk_openjdk.Alloc.Expand.{
  Buffer, Result, slow_call, assertion_failed, allocated, with_bit, set_vo_bit,
}

-- The valid-object bit of an address.
abbrev pub vo_bit : Setup → (ℕ → ℕ) → ℕ → ℕ
vo_bit s bytes a = bytes (add64 s.vo_bit_base (a / 64)) % 256 / 2 ^ (a / 8 % 8) % 2

pub by_bit :
    (P : ℕ → Type 0) → P 0 × P 1 × P 2 × P 3 × P 4 × P 5 × P 6 × P 7 → (k : ℕ) → k < 8 → P k
by_bit P h zero lt = h.0
by_bit P h (suc zero) lt = h.1
by_bit P h (suc (suc zero)) lt = h.2
by_bit P h (suc (suc (suc zero))) lt = h.3
by_bit P h (suc (suc (suc (suc zero)))) lt = h.4
by_bit P h (suc (suc (suc (suc (suc zero))))) lt = h.5
by_bit P h (suc (suc (suc (suc (suc (suc zero)))))) lt = h.6
by_bit P h (suc (suc (suc (suc (suc (suc (suc zero))))))) lt = h.7
by_bit P h (suc (suc (suc (suc (suc (suc (suc (suc k)))))))) lt = absurd (omega arith)

abbrev WithBit : ℕ → ℕ → ℕ → Type 0
WithBit byte k j = with_bit byte k % 256 / 2 ^ j % 2 ≡ (if j == k then 1 else byte / 2 ^ j % 2)

with_bit_lem : (byte k j : ℕ) → byte < 256 → k < 8 → j < 8 → WithBit byte k j
with_bit_lem byte k j small lk lj =
    by_bit (λ j'. WithBit byte k j')
      (
        by_bit (λ k'. WithBit byte k' 0) (ground arith) k lk,
        by_bit (λ k'. WithBit byte k' 1) (ground arith) k lk,
        by_bit (λ k'. WithBit byte k' 2) (ground arith) k lk,
        by_bit (λ k'. WithBit byte k' 3) (ground arith) k lk,
        by_bit (λ k'. WithBit byte k' 4) (ground arith) k lk,
        by_bit (λ k'. WithBit byte k' 5) (ground arith) k lk,
        by_bit (λ k'. WithBit byte k' 6) (ground arith) k lk,
        by_bit (λ k'. WithBit byte k' 7) (ground arith) k lk,
      )
      j lj

-- What the code stores at the byte of an object.
unfoldable pub stored : Setup → (ℕ → ℕ) → (obj : ℕ) → ℕ → ℕ
stored s bytes obj a =
    if a == add64 s.vo_bit_base (obj / 64) then with_bit (bytes a % 256) (obj / 8 % 8) else bytes a

-- Two addresses with the same byte are the same where their bits are.
same_index :
    (obj a : ℕ)
    → a / 64 ≡ obj / 64
    → IsAddress obj
    → IsAddress a
    → (a == obj) ≡ (a / 8 % 8 == obj / 8 % 8)
same_index obj a same ho ha = ground arith

pub vo_bit-stored :
    (s : Setup) (bytes : ℕ → ℕ) (obj a : ℕ)
    → IsAddress obj
    → IsAddress a
    → vo_bit s (stored s bytes obj) a ≡ (if a == obj then 1 else vo_bit s bytes a)
unfolding stored
vo_bit-stored s bytes obj a ho ha =
    let bit =
      with_bit_lem (bytes (add64 s.vo_bit_base (obj / 64)) % 256) (obj / 8 % 8) (a / 8 % 8)
        (omega arith) (omega arith) (omega arith) in
    elim (Bool-cases (add64 s.vo_bit_base (a / 64) == add64 s.vo_bit_base (obj / 64))) [
      | inl e ↦
          (let same : a / 64 ≡ obj / 64 = ground arith in
            let index : (a == obj) ≡ (a / 8 % 8 == obj / 8 % 8) = same_index obj a same ho ha in
            rw (index, same) (simp ==_refl bit))
      | inr ne ↦ (let apart : (a == obj) ≡ false = ground arith in simp (ne, apart))
    ]

-- The bit of the new object is set, and no other.
abbrev pub SetsBit : Setup → ℕ → Buffer → Result → Type 0
SetsBit s obj b (slow_call b') = ⊥
SetsBit s obj b assertion_failed = ⊥
SetsBit s obj b (allocated obj' b') =
    (obj' ≡ obj)
    × (b'.top ≡ b.top)
    × (b'.end ≡ b.end)
    × ((a : ℕ) → IsAddress a → vo_bit s b'.bytes a ≡ (if a == obj then 1 else vo_bit s b.bytes a))

-- Where valid-object bits are built in, or the default allocator is that of mark-compact: behind the fast
-- path the valid-object bit of the new object is set, that of every other address is what it was, and the
-- top and the end of the buffer are as before. An address is a word that is a multiple of 8.
pub set_vo_bit-SetsBit :
    (s : Setup) (obj : ℕ) (b : Buffer)
    → (s.enable_vo_bit || is_mark_compact s.tag) ≡ true
    → IsAddress obj
    → SetsBit s obj b (set_vo_bit s (allocated obj b))
unfolding set_vo_bit stored
set_vo_bit-SetsBit s obj b on ho =
    simp on (refl, refl, refl, λ a ha. vo_bit-stored s b.bytes obj a ho ha)
