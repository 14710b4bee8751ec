-- ===== src/Tests/Cores.antt =====
-- An mmtk-core of the smallest kind that keeps the contracts of the two barriers.
use mmtk_openjdk.Base.{
  ℕ, zero, suc, ◌+◌, ◌*◌, ◌/◌, ◌%◌, ◌^◌, ◌<◌, ◌≡◌, refl, Bool, true, false, ◌||◌, List, [], ◌∷◌,
  arith, has, ◌==◌, if◌then◌else◌, add64, Bool-cases, ==_iff, inl, inr,
}
use mmtk_openjdk.Barriers.Metadata.{is_unlogged, unlog_bit, IsAddress, shift_right_signed}
use mmtk_openjdk.Barriers.Runtime.{
  write_pre, write_post, write_slow, array_copy_pre, array_copy_post, load_reference,
  probable_write,
}
use mmtk_openjdk.Barriers.Access.{Core}
use mmtk_openjdk.Barriers.Snapshot.{SatbCore}
use mmtk_openjdk.Barriers.Remembered.{ObjectCore}
use mmtk_openjdk.Compiled.Accesses.{is_in_range}
use mmtk_openjdk.Compiled.Snapshot.Runs.{CopyCore}
use mmtk_openjdk.Compiled.Snapshot.Loads.{LoadCore}
use mmtk_openjdk.Compiled.Remembered.{RegionCore}

-- An object of 32 bytes has two slots.
abbrev pub slots_of : ℕ → List ℕ
slots_of obj = if obj % 32 == 0 then (obj + 8) ∷ (obj + 16) ∷ [] else []

-- The metadata begin at address 0.
meta : ℕ → ℕ
meta obj = add64 0 (shift_right_signed obj 6)

shift : ℕ → ℕ
shift obj = shift_right_signed obj 3 % 8

-- A byte of eight bits.
pack : (ℕ → ℕ) → ℕ
pack f =
    f 0 % 2
    + f 1 % 2 * 2
    + f 2 % 2 * 4
    + f 3 % 2 * 8
    + f 4 % 2 * 16
    + f 5 % 2 * 32
    + f 6 % 2 * 64
    + f 7 % 2 * 128

-- The bits of a byte but the one at `k`.
others : ℕ → ℕ → ℕ → ℕ
others b k j = if j == k then 0 else b % 256 / 2 ^ j

pub clear : (ℕ → ℕ) → ℕ → ℕ → ℕ
unfolding pack
clear u obj a = if a == meta obj then pack (others (u a) (shift obj)) else u a

bit-pack : (f : ℕ → ℕ) (j : ℕ) → j < 8 → pack f % 256 / 2 ^ j % 2 ≡ f j % 2
unfolding pack
bit-pack f zero lt = omega arith
bit-pack f (suc zero) lt = omega arith
bit-pack f (suc (suc zero)) lt = omega arith
bit-pack f (suc (suc (suc zero))) lt = omega arith
bit-pack f (suc (suc (suc (suc zero)))) lt = omega arith
bit-pack f (suc (suc (suc (suc (suc zero))))) lt = omega arith
bit-pack f (suc (suc (suc (suc (suc (suc zero)))))) lt = omega arith
bit-pack f (suc (suc (suc (suc (suc (suc (suc zero))))))) lt = omega arith
bit-pack f (suc (suc (suc (suc (suc (suc (suc (suc k)))))))) lt = absurd (omega arith)

-- Two objects with the same bit are the same.
bit_apart : (a b : ℕ) → IsAddress a → IsAddress b → meta a ≡ meta b → shift a ≡ shift b → a ≡ b
unfolding meta shift
bit_apart a b ha hb m s = ground arith

-- The state: the oops recorded, the objects remembered, and the slots noted.
abbrev pub State : Type 0
State = (ℕ → Bool) × (ℕ → Bool) × (ℕ → Bool)

abbrev slow : ℕ → (ℕ → ℕ) → (ℕ → ℕ) → State → State × (ℕ → ℕ)
slow src f u (r, o, n) =
    ((λ v. r v || has v (map_slots (slots_of src)), λ obj. o obj || (obj == src), n), clear u src)
  where
    map_slots : List ℕ → List ℕ
    map_slots [] = []
    map_slots (a ∷ rest) = f a ∷ map_slots rest

abbrev checked : ℕ → (ℕ → ℕ) → (ℕ → ℕ) → State → State × (ℕ → ℕ)
checked src f u st = if is_unlogged 0 u src then slow src f u st else (st, u)

abbrev pub small_core : Core
small_core = record {
  State = State;
  handle = λ c f u st. elim c [
    | write_pre src slot target ↦ checked src f u st
    | write_post src slot target ↦ checked src f u st
    | write_slow src slot target ↦ slow src f u st
    | array_copy_pre src dst count ↦ (((λ v. true), st.1, st.2), u)
    | array_copy_post src dst count ↦ ((st.0, st.1, (λ a. st.2 a || is_in_range a dst count)), u)
    | load_reference value ↦ (((λ v. st.0 v || (v == value)), st.1, st.2), u)
    | probable_write obj ↦ checked obj f u st
  ];
}

unlog_bit_lem : (u : ℕ → ℕ) (a : ℕ) → unlog_bit 0 u a ≡ u (meta a) % 256 / 2 ^ shift a % 2
unfolding unlog_bit meta shift
unlog_bit_lem u a = refl

shift-lt : (a : ℕ) → shift a < 8
unfolding shift
shift-lt a = omega arith

bit-others :
    (b k j : ℕ)
    → j < 8
    → pack (others b k) % 256 / 2 ^ j % 2 ≡ (if j == k then 0 else b % 256 / 2 ^ j % 2)
unfolding others
bit-others b k j lt = elim (Bool-cases (j == k)) [
  | inl e ↦ rw (bit-pack (others b k) j lt) (simp e)
  | inr ne ↦ rw (bit-pack (others b k) j lt) (simp ne)
]

unlog_bit-clear :
    (u : ℕ → ℕ) (src obj : ℕ)
    → IsAddress obj
    → IsAddress src
    → unlog_bit 0 (clear u src) obj ≡ (if obj == src then 0 else unlog_bit 0 u obj)
unfolding clear
unlog_bit-clear u src obj ho hs =
    rw (unlog_bit_lem (clear u src) obj, unlog_bit_lem u obj)
      (elim (Bool-cases (meta obj == meta src)) [
        | inr ne ↦ (let d : (obj == src) ≡ false = ground arith in simp (ne, d))
        | inl e ↦ simp e (
            rw (bit-others (u (meta obj)) (shift src) (shift obj) (shift-lt obj))
              (elim (Bool-cases (shift obj == shift src)) [
                | inl k ↦
                    (let same : obj ≡ src =
                        bit_apart obj src ho hs ((==_iff (meta obj) (meta src)).0 e)
                          ((==_iff (shift obj) (shift src)).0 k) in
                      let d : (obj == src) ≡ true = (==_iff obj src).1 same in simp (k, d))
                | inr k ↦ (let d : (obj == src) ≡ false = ground arith in simp (k, d))
              ]))
      ])

pub is_unlogged-clear :
    (u : ℕ → ℕ) (src obj : ℕ)
    → IsAddress obj
    → IsAddress src
    → is_unlogged 0 (clear u src) obj ≡ (if obj == src then false else is_unlogged 0 u obj)
is_unlogged-clear u src obj ho hs = ground (arith, unlog_bit-clear u src obj ho hs)

pub slots_apart :
    (a b slot : ℕ) → has slot (slots_of a) ≡ true → has slot (slots_of b) ≡ true → a ≡ b
slots_apart a b slot h k = ground arith

abbrev pub small_core-SatbCore : SatbCore 0 small_core
small_core-SatbCore = record {
  slots_of = slots_of;
  recorded = λ st v. st.0 v;
  slots_apart = slots_apart;
  slow_records = λ src slot target a f u st h i. ground arith;
  slow_keeps = λ src slot target v f u st h. ground arith;
  slow_logs_only = λ src slot target obj f u st ho hs. is_unlogged-clear u src obj ho hs;
  pre_unlogged = λ src slot target f u st h. simp h;
  pre_logged = λ src slot target f u st h. simp h;
}

abbrev pub small_core-ObjectCore : ObjectCore 0 small_core
small_core-ObjectCore = record {
  remembered = λ st obj. st.1 obj;
  slow_remembers = λ src slot target f u st h. ground arith;
  slow_keeps = λ src slot target obj f u st h. ground arith;
  slow_logs_only = λ src slot target obj f u st ho hs. is_unlogged-clear u src obj ho hs;
  post_unlogged = λ src slot target f u st h. simp h;
  post_logged = λ src slot target f u st h. simp h;
}

abbrev pub small_core-CopyCore : CopyCore small_core (λ st v. st.0 v)
small_core-CopyCore = record {
  copy_records = λ src dst count a f u st h. refl;
  copy_keeps = λ src dst count v f u st h. refl;
  copy_logs_nothing = λ src dst count f u st. refl;
}

abbrev pub small_core-RegionCore : RegionCore small_core (λ st obj. st.1 obj)
small_core-RegionCore = record {
  slots_of = slots_of;
  noted = λ st a. st.2 a;
  slots_apart = slots_apart;
  slow_keeps_noted = λ src slot target a f u st h. h;
  copy_notes = λ src dst count a f u st h. ground arith;
  copy_keeps_noted = λ src dst count a f u st h. ground arith;
  copy_keeps = λ src dst count obj f u st h. h;
  copy_logs_nothing = λ src dst count f u st. refl;
}

abbrev pub small_core-LoadCore : LoadCore small_core (λ st v. st.0 v)
small_core-LoadCore = record {
  load_records = λ value f u st. ground arith;
  load_keeps = λ value v f u st h. ground arith;
}
