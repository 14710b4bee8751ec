-- ===== src/Objects/Checksum.antt =====
-- When the check of memory layouts passes: `validate_memory_layouts` (mmtk/src/abi.rs) with the checksum of
-- openjdk/mmtkUpcalls.cpp.
use Prim.Native.Nat.{bit_xor, differ}
use mathlib.Core.Logic.{ite, if_pos, if_neg}
use mmtk_openjdk.Base.{
  ℕ, zero, suc, ◌+◌, ◌*◌, ◌/◌, ◌%◌, ◌≤◌, ◌<◌, ◌≡◌, ◌≢◌, ◌↔◌, refl, sym, ap, ap₂, fun_ext, ◌∙◌, true,
  arith, ==_iff,
}
use mmtk_openjdk.Base.Digits.{bit_xor-next}
use mmtk_openjdk.Objects.{
  KlassType, klass, instance_klass, instance_ref_klass, instance_mirror_klass,
  instance_class_loader_klass, type_array_klass, obj_array_klass, compute_klass_mem_layout_checksum,
  validate_memory_layouts,
}

differ_digits : (x c : ℕ) → x < 2 → c < 2 → differ x c ≡ (x + c) % 2
differ_digits zero c p q = omega arith
differ_digits (suc zero) zero p q = refl
differ_digits (suc zero) (suc zero) p q = refl
differ_digits (suc zero) (suc (suc c)) p q = absurd (omega arith)
differ_digits (suc (suc x)) c p q = absurd (omega arith)

digit_of : (a c : ℕ) → bit_xor a c ≡ bit_xor (a / 2) (c / 2) * 2 + (a % 2 + c % 2) % 2
digit_of a c =
    omega (arith, bit_xor-next a c, differ_digits (a % 2) (c % 2) (omega arith) (omega arith))

cancel_right_below : (n a b c : ℕ) → a ≤ n → b ≤ n → bit_xor a c ≡ bit_xor b c → a ≡ b
cancel_right_below zero a b c p q e = omega arith
cancel_right_below (suc n) a b c p q e = omega (
  arith,
  digit_of a c,
  digit_of b c,
  cancel_right_below n (a / 2) (b / 2) (c / 2) (omega arith) (omega arith)
      (omega (arith, digit_of a c, digit_of b c)),
)

cancel_right : (a b c : ℕ) → bit_xor a c ≡ bit_xor b c → a ≡ b
cancel_right a b c e = cancel_right_below (a + b) a b c (omega arith) (omega arith) e

comm_below : (n a b : ℕ) → a ≤ n → b ≤ n → bit_xor a b ≡ bit_xor b a
comm_below zero a b p q = ap₂ bit_xor (omega arith) (omega arith)
comm_below (suc n) a b p q =
    omega
      (arith, digit_of a b, digit_of b a, comm_below n (a / 2) (b / 2) (omega arith) (omega arith))

cancel_left : (c a b : ℕ) → bit_xor c a ≡ bit_xor c b → a ≡ b
cancel_left c a b e = cancel_right a b c (
    comm_below (a + c) a c (omega arith) (omega arith)
    ∙ e
    ∙ comm_below (b + c) c b (omega arith) (omega arith))

-- All classes but one have the same size on both sides.
abbrev pub AgreeBut : KlassType → (vm binding : KlassType → ℕ) → Type 0
AgreeBut k vm binding = (j : KlassType) → j ≢ k → vm j ≡ binding j

KlassType-discrete : Discrete KlassType
KlassType-discrete = hlevel

abbrev with_size : KlassType → ℕ → (KlassType → ℕ) → KlassType → ℕ
with_size k n size_of j = ite (KlassType-discrete j k) n (size_of j)

AgreeBut-with_size :
    (k : KlassType) (vm binding : KlassType → ℕ)
    → AgreeBut k vm binding
    → vm ≡ with_size k (vm k) binding
AgreeBut-with_size k vm binding h = fun_ext λ j. elim (KlassType-discrete j k) [
  | yes p ↦ rw (if_pos _ p) (ap vm p)
  | no other ↦ rw (if_neg _ other) (h j other)
]

-- Two checksums that agree, where one size was put in.
put_in :
    (k : KlassType) (size_of : KlassType → ℕ) (m n : ℕ)
    → compute_klass_mem_layout_checksum (with_size k m size_of)
      ≡ compute_klass_mem_layout_checksum (with_size k n size_of)
    → m ≡ n
unfolding compute_klass_mem_layout_checksum KlassType-discrete
put_in klass size_of m n e =
    (cancel_right _ _ _ (
      cancel_right _ _ _
        (cancel_right _ _ _ (cancel_right _ _ _ (cancel_right _ _ _ (cancel_right _ _ _ e))))))
put_in instance_klass size_of m n e = cancel_left _ _ _ (
    cancel_right _ _ _
      (cancel_right _ _ _ (cancel_right _ _ _ (cancel_right _ _ _ (cancel_right _ _ _ e)))))
put_in instance_ref_klass size_of m n e =
    cancel_left _ _ _
      (cancel_right _ _ _ (cancel_right _ _ _ (cancel_right _ _ _ (cancel_right _ _ _ e))))
put_in instance_mirror_klass size_of m n e =
    cancel_left _ _ _ (cancel_right _ _ _ (cancel_right _ _ _ (cancel_right _ _ _ e)))
put_in instance_class_loader_klass size_of m n e =
    cancel_left _ _ _ (cancel_right _ _ _ (cancel_right _ _ _ e))
put_in type_array_klass size_of m n e = cancel_left _ _ _ (cancel_right _ _ _ e)
put_in obj_array_klass size_of m n e = cancel_left _ _ _ e

module _ (vm binding : KlassType → ℕ) (k : KlassType) (h : AgreeBut k vm binding) where
  only_differs :
      compute_klass_mem_layout_checksum vm ≡ compute_klass_mem_layout_checksum binding
      → vm k ≡ binding k
  only_differs e = put_in k binding (vm k) (binding k) (
      ap compute_klass_mem_layout_checksum (sym (AgreeBut-with_size k vm binding h))
      ∙ e
      ∙ ap compute_klass_mem_layout_checksum
          (AgreeBut-with_size k binding binding (λ j other. refl)))

  -- If the sizes of all classes but one agree, the check passes exactly if the sizes of this one agree too.
  pub validate_memory_layouts-one : (validate_memory_layouts vm binding ≡ true) ↔ (vm k ≡ binding k)
  unfolding validate_memory_layouts
  validate_memory_layouts-one = (
    λ e. only_differs ((==_iff _ _).0 e),
    λ e. (==_iff _ _).1 (
        ap compute_klass_mem_layout_checksum (
          AgreeBut-with_size k vm binding h
          ∙ ap (λ n. with_size k n binding) e
          ∙ sym (AgreeBut-with_size k binding binding (λ j other. refl)))),
  )
