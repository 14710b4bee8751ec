-- ===== src/Alloc/Expand.antt =====
-- The allocation fast path of the server compiler: `MMTkBarrierSetC2::expand_allocate`
-- (openjdk/mmtkBarrierSetC2.cpp). The function builds a graph; here stands what the graph computes, and
-- the choices made while it is built. Left out are the initialization of the object, its memory barriers
-- and probes; the end of the function is in Alloc/Projections.
pub mod Bounds
pub mod VoBit
use mmtk_openjdk.Base.{
  ℕ, zero, suc, ◌+◌, ◌*◌, ◌/◌, ◌%◌, ◌^◌, ◌≤◌, ◌<◌, ◌≡◌, refl, Bool, true, false, not, ◌&&◌, ◌||◌,
  Option, none, some, ltb, leb, ◌==◌, if◌then◌else◌, sub64, add64, arith,
}
use mmtk_openjdk.X86.Eden.{Setup, extra_header, is_mark_compact, has_no_fastpath}

-- `initial_slow_test`: folded to a constant, or a value at run time.
pub data SlowTest : Type 0 where
  folded : (slow : Bool) → SlowTest
  tested : (at_run_time : Bool) → SlowTest

-- `always_slow` and `initial_slow_test` after the size checks; `none` is `NULL`.
pub record Checks : Type 0 where
  pub always_slow : Bool
  pub slow_test : Option Bool

unfoldable pub read_slow_test : SlowTest → Checks
read_slow_test (folded slow) = record { always_slow = slow; slow_test = none }
read_slow_test (tested t) = record { always_slow = false; slow_test = some t }

-- `x < 2 ^ 63` as a `long`.
abbrev pub is_positive : ℕ → Bool
is_positive x = ltb x (2 ^ 63)

-- `CmpL` with `BoolTest::ge`, on words as signed numbers.
abbrev pub ge_signed : ℕ → ℕ → Bool
ge_signed a b = leb (add64 b (2 ^ 63)) (add64 a (2 ^ 63))

abbrev pub or_test : Option Bool → Bool → Option Bool
or_test none b = some b
or_test (some t) b = some (b || t)

-- The size: a constant that the compiler knows, or a value.
pub data Size : Type 0 where
  constant variable : (bytes : ℕ) → Size

abbrev pub bytes_of : Size → ℕ
bytes_of (constant bytes) = bytes
bytes_of (variable bytes) = bytes

-- The size check; a negative constant is not found by `find_long_con` with -1 for a default.
unfoldable pub check_size : Setup → Size → Checks → Checks
unfolding extra_header
check_size s (constant bytes) c =
    if ltb (sub64 s.max_non_los_bytes (extra_header s)) bytes
    then record { always_slow = true; slow_test = none }
    else c
check_size s (variable bytes) c = record c {
  slow_test = or_test c.slow_test (ge_signed bytes (sub64 s.max_non_los_bytes (extra_header s)));
}

-- Probes, a disabled fast path and allocators without one.
unfoldable pub check_fastpath : Setup → (dtrace_alloc_probes : Bool) → Checks → Checks
check_fastpath s dtrace_alloc_probes c =
    if dtrace_alloc_probes || not s.allocation_fastpath || has_no_fastpath s.tag
    then record { always_slow = true; slow_test = none }
    else c

-- What the code works on: the buffer of the thread, and the bytes of the side metadata.
pub record Buffer : Type 0 where
  pub top : ℕ
  pub end : ℕ
  pub bytes : ℕ → ℕ

-- The object, or the call of the slow path; or the assertion on `initial_slow_test` and `always_slow` fails while the
-- code is built.
pub data Result : Type 0 where
  slow_call : Buffer → Result
  assertion_failed : Result
  allocated : (obj : ℕ) → Buffer → Result

-- From the load of the top to the store of the new one.
unfoldable pub take : Setup → (size : ℕ) → Buffer → Result
unfolding extra_header
take s size b =
    let old_eden_top = if is_mark_compact s.tag then add64 b.top (extra_header s) else b.top in
    let new_eden_top = add64 old_eden_top size in
    if leb b.end new_eden_top
    then slow_call b
    else allocated old_eden_top (record b { top = new_eden_top })

-- A byte with its bit `k` set.
abbrev pub with_bit : ℕ → ℕ → ℕ
with_bit byte k = if byte / 2 ^ k % 2 == 0 then byte + 2 ^ k else byte

unfoldable pub set_vo_bit : Setup → Result → Result
set_vo_bit s (slow_call b) = slow_call b
set_vo_bit s assertion_failed = assertion_failed
set_vo_bit s (allocated obj b) =
    if s.enable_vo_bit || is_mark_compact s.tag
    then allocated obj (record b {
      bytes = λ a.
          if a == add64 s.vo_bit_base (obj / 64)
          then with_bit (b.bytes a % 256) (obj / 8 % 8)
          else b.bytes a;
    })
    else allocated obj b

-- `initial_slow_test != NULL`
abbrev is_test : Option Bool → Bool
is_test none = false
is_test (some t) = true

abbrev pub run_test : Option Bool → Bool
run_test none = false
run_test (some t) = t

unfoldable pub expand_allocate :
    Setup → (dtrace_alloc_probes : Bool) → SlowTest → Size → Buffer → Result
unfolding read_slow_test check_size check_fastpath take set_vo_bit
expand_allocate s dtrace_alloc_probes initial size b =
    let c = check_fastpath s dtrace_alloc_probes (check_size s size (read_slow_test initial)) in
    if c.always_slow && is_test c.slow_test
    then assertion_failed
    else if c.always_slow || run_test c.slow_test
    then slow_call b
    else set_vo_bit s (take s (bytes_of size) b)
