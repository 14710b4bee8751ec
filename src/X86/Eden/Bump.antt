-- ===== src/X86/Eden/Bump.antt =====
-- What the emitted allocation fast path does, for the allocators without a header and without
-- valid-object bits.
use mmtk_openjdk.Base.{ℕ, ◌+◌, ◌≤◌, ◌<◌, ◌≡◌, ◌≢◌, Option, none, some, add64}
use mmtk_openjdk.X86.Cpu.{rax, Cpu}
use mmtk_openjdk.X86.Eden.{r15_thread, slow_case, Size, constant, variable, Setup}

-- The size in bytes.
abbrev pub size_in : (ℕ → ℕ) → Size → ℕ
size_in registers (constant bytes) = bytes
size_in registers (variable r) = registers r

-- The sizes that the check lets pass: a constant up to the limit, a variable below it.
abbrev pub Passes : Setup → (ℕ → ℕ) → Size → Type 0
Passes s registers (constant bytes) = bytes ≤ s.max_non_los_bytes
Passes s registers (variable r) = registers r < s.max_non_los_bytes

-- The register of a variable size is neither that of the object nor that of the end.
abbrev pub IsApart : (t1 : ℕ) → Size → Type 0
IsApart t1 (constant bytes) = Unit
IsApart t1 (variable r) = (r ≢ rax) × (r ≢ t1)

-- The words of the thread that the code works on.
module _ (s : Setup) (c : Cpu) where
  abbrev pub thread : ℕ
  thread = c.registers r15_thread

  abbrev pub top_at : ℕ
  top_at = add64 thread s.offsets.tlab_top_offset

  abbrev pub end_at : ℕ
  end_at = add64 thread s.offsets.tlab_end_offset

  abbrev pub count_at : ℕ
  count_at = add64 thread s.allocated_bytes_offset

  -- The object is taken: `bytes` from the top on.
  abbrev pub Taken : (bytes : ℕ) → Option ℕ × Cpu → Type 0
  Taken bytes (to, c') =
      (to ≡ none)
      × (c'.registers rax ≡ c.words top_at)
      × (c'.words top_at ≡ c.words top_at + bytes)
      × (c'.words count_at ≡ add64 (c.words count_at) bytes)

  -- The code leaves for the slow path, and has written nothing.
  abbrev pub Left : Option ℕ × Cpu → Type 0
  Left (to, c') = (to ≡ some slow_case) × (c'.words ≡ c.words)
