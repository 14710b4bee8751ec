-- ===== src/Roots.antt =====
-- `MMTkRootsClosure` (openjdk/mmtkRootsClosure.hpp): slots are gathered in a buffer, which goes to
-- the collector when it is full and when the closure is destroyed. The collector's side is a
-- parameter: `new_buffer k` is the answer to the k-th call of the slots closure.
pub mod Scan
pub mod Upcalls
use mmtk_openjdk.Base.{
  ℕ, suc, ◌+◌, ◌<◌, Bool, true, false, List, [], ◌∷◌, ◌++◌, Option, none, some, ltb, leb, ◌==◌,
  if◌then◌else◌, length,
}
use mmtk_openjdk.Slots.{Place, tag}

-- `NewBuffer`; a buffer of address 0 is `NULL`.
pub record NewBuffer : Type 0 where
  pub buf : ℕ
  pub cap : ℕ

-- What the closure hands over: a buffer with its first slots, filled or, at the end, to be freed.
pub data Call : Type 0 where
  deliver : (buf : ℕ) (slots : List ℕ) (cap : ℕ) → Call
  release_buffer : (buf : ℕ) (len cap : ℕ) → Call

pub record Closure : Type 0 where
  pub buffer : NewBuffer
  pub slots : List ℕ  -- the first `_cursor` entries of the buffer
  pub issued : ℕ  -- buffers received
  pub calls : List Call

pub data Result : Type 0 where
  ok : Closure → Result
  guarantee_failed : Result
  out_of_bounds : Result

abbrev pub and_then : Result → (Closure → Result) → Result
and_then (ok c) k = k c
and_then guarantee_failed k = guarantee_failed
and_then out_of_bounds k = out_of_bounds

-- The parameters: the buffers received, `UseCompressedOops`, and the oop at a place (0 is null).
module _ (new_buffer : ℕ → NewBuffer) (use_compressed_oops : Bool) (oop_at : Place → ℕ) where
  unfoldable pub construct : Closure
  construct = record { buffer = new_buffer 0; slots = []; issued = 1; calls = [] }

  unfoldable pub flush : Closure → Closure
  flush c =
      if ltb 0 (length c.slots)
      then record {
        buffer = new_buffer c.issued;
        slots = [];
        issued = c.issued + 1;
        calls = c.calls ++ deliver c.buffer.buf c.slots c.buffer.cap ∷ [];
      }
      else c

  -- `if (_cursor >= _cap) flush();`
  unfoldable pub flush_if_full : Closure → Closure
  unfolding flush
  flush_if_full c = if leb c.buffer.cap (length c.slots) then flush c else c

  -- `_buffer[_cursor++] = p`, and the flush of a full buffer
  unfoldable pub append_slot : ℕ → Closure → Result
  unfolding flush_if_full
  append_slot slot c =
      if ltb (length c.slots) c.buffer.cap
      then ok (flush_if_full (record c { slots = c.slots ++ slot ∷ [] }))
      else out_of_bounds

  append_tagged : Option ℕ → Closure → Result
  unfolding append_slot
  append_tagged none c = guarantee_failed
  append_tagged (some slot) c = append_slot slot c

  unfoldable pub do_oop : Place → Closure → Result
  unfolding append_tagged
  do_oop p c = if oop_at p == 0 then ok c else append_tagged (tag use_compressed_oops p) c

  unfoldable pub release : Closure → Closure
  release c = if c.buffer.buf == 0 then c else record c {
    calls = c.calls ++ release_buffer c.buffer.buf (length c.slots) c.buffer.cap ∷ [];
  }

  -- `~MMTkRootsClosure`
  unfoldable pub destroy : Closure → Closure
  unfolding flush release
  destroy c = release (flush c)

  unfoldable pub do_oops : List Place → Closure → Result
  unfolding do_oop
  do_oops [] c = ok c
  do_oops (p ∷ rest) c = and_then (do_oop p c) (do_oops rest)

  -- The life of a closure: the upcalls construct it, let the VM iterate over some roots, and leave
  -- its scope.
  unfoldable pub scan : List Place → Result
  unfolding construct do_oops destroy
  scan places = and_then (do_oops places construct) (λ c. ok (destroy c))
