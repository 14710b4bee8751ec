-- ===== src/Alloc/Expand/Bounds.antt =====
-- What the server compiler's allocation fast path takes: memory of the buffer and nothing else.
use mmtk_openjdk.Base.{◌⊎◌, ap, true, false, ◌+◌, ◌^◌, ◌≤◌, ◌<◌, ◌≡◌, Bool, arith}
use mmtk_openjdk.X86.Eden.{has_no_fastpath, Setup, extra_header}
use mmtk_openjdk.Alloc.Expand.{
  folded, tested, SlowTest, Size, constant, variable, bytes_of, Buffer, Result, slow_call,
  assertion_failed, allocated, expand_allocate,
}

-- The size and the header fit below the limit for the default space: with equality for a constant.
abbrev pub Admits : Setup → Size → Type 0
Admits s (constant bytes) = bytes + extra_header s ≤ s.max_non_los_bytes
Admits s (variable bytes) = bytes + extra_header s < s.max_non_los_bytes

abbrev pub IsVariable : Size → Type 0
IsVariable (constant bytes) = ⊥
IsVariable (variable bytes) = Unit

-- A fast path would be built for a size that is no constant, where OpenJDK's own test is folded to the slow path.
abbrev pub IsInconsistent : Setup → (probes : Bool) → SlowTest → Size → Type 0
IsInconsistent s probes initial size =
    (initial ≡ folded true)
    × IsVariable size
    × (probes ≡ false)
    × (s.allocation_fastpath ≡ true)
    × (has_no_fastpath s.tag ≡ false)

-- The slow path finds the buffer as it was; the fast path takes a size that the check admits, behind
-- the header, moves the top behind it, and stays below the end; and what makes the assertion fail.
abbrev pub Takes : Setup → (probes : Bool) → SlowTest → Size → Buffer → Result → Type 0
Takes s probes initial size b (slow_call b') = (b' ≡ b) × ¬ IsInconsistent s probes initial size
Takes s probes initial size b assertion_failed = IsInconsistent s probes initial size
Takes s probes initial size b (allocated obj b') =
    ¬ IsInconsistent s probes initial size
    × Admits s size
    × (obj ≡ b.top + extra_header s)
    × (b'.top ≡ obj + bytes_of size)
    × (b'.top < b.end)
    × (b'.end ≡ b.end)

-- With a limit below 2 ^ 63 and not below the header, a size below 2 ^ 63, and a buffer whose top, with
-- header and size added, is a word: the slow path finds the buffer as it was; the fast path takes a
-- size that the limit admits, moves the top behind header and object, and stays below the end; and the
-- assertion that the slow test is consistent fails exactly where a fast path would be built for a size that is no
-- constant, and OpenJDK's own test is folded to the slow path.
pub expand_allocate-Takes :
    (s : Setup) (probes : Bool) (initial : SlowTest) (size : Size) (b : Buffer)
    → s.max_non_los_bytes < 2 ^ 63
    → extra_header s ≤ s.max_non_los_bytes
    → bytes_of size < 2 ^ 63
    → b.top + extra_header s + bytes_of size < 2 ^ 64
    → Takes s probes initial size b (expand_allocate s probes initial size b)
unfolding expand_allocate extra_header
expand_allocate-Takes s probes initial size b h1 h2 h3 h4 = ground arith

-- The result is an object, behind the header, and the top is behind it.
abbrev Fast : Setup → Size → Buffer → Result → Type 0
Fast s size b (slow_call b') = ⊥
Fast s size b assertion_failed = ⊥
Fast s size b (allocated obj b') =
    (obj ≡ b.top + extra_header s) × (b'.top ≡ b.top + extra_header s + bytes_of size)

Fast-allocated :
    (s : Setup) (size : Size) (b : Buffer) (r : Result)
    → Fast s size b r
    → (b' : Buffer) × (r ≡ allocated (b.top + extra_header s) b')
      × (b'.top ≡ b.top + extra_header s + bytes_of size)
Fast-allocated s size b (slow_call b') h = absurd h
Fast-allocated s size b assertion_failed h = absurd h
Fast-allocated s size b (allocated obj b') (same, top) = (b', ap (λ o. allocated o b') same, top)

expand_allocate-Fast :
    (s : Setup) (initial : SlowTest) (size : Size) (b : Buffer)
    → s.allocation_fastpath ≡ true
    → has_no_fastpath s.tag ≡ false
    → (initial ≡ folded false) ⊎ (initial ≡ tested false)
    → s.max_non_los_bytes < 2 ^ 63
    → Admits s size
    → b.top + extra_header s + bytes_of size < b.end
    → b.end < 2 ^ 64
    → Fast s size b (expand_allocate s false initial size b)
unfolding expand_allocate extra_header
expand_allocate-Fast s initial size b fast has test h1 h2 room h3 = ground arith

-- Where the fast path is on and the allocator has one, without probes, with the limit below 2 ^ 63 and
-- the end of the buffer a word, and where the first test of OpenJDK lets the allocation pass: a size that
-- the limit admits, and that fits with its header below the end of the buffer, is taken at the top,
-- behind the header, and the top moves behind the object.
expand_allocate-fast :
    (s : Setup) (initial : SlowTest) (size : Size) (b : Buffer)
    → s.allocation_fastpath ≡ true
    → has_no_fastpath s.tag ≡ false
    → (initial ≡ folded false) ⊎ (initial ≡ tested false)
    → s.max_non_los_bytes < 2 ^ 63
    → Admits s size
    → b.top + extra_header s + bytes_of size < b.end
    → b.end < 2 ^ 64
    → (b' : Buffer) × (expand_allocate s false initial size b
        ≡ allocated (b.top + extra_header s) b')
      × (b'.top ≡ b.top + extra_header s + bytes_of size)
expand_allocate-fast s initial size b fast has test h1 h2 room h3 =
    Fast-allocated s size b _ (expand_allocate-Fast s initial size b fast has test h1 h2 room h3)
