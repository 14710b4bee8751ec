-- ===== src/Compiled/Calls.antt =====
-- The compiled barriers make the calls of the runtime barriers.
use mmtk_openjdk.Base.{
  ℕ, ◌^◌, ◌≤◌, ◌<◌, ◌≡◌, ◌⊎◌, Bool, true, false, ◌&&◌, [], none, some, ◌==◌, if◌then◌else◌, arith,
}
use mmtk_openjdk.Barriers.Metadata.{unlog_bit, is_unlogged}
use mmtk_openjdk.Barriers.Runtime.{
  Settings, object_barrier, satb_barrier, object_reference_write_pre, object_reference_write_post,
  load_reference_barrier,
}
use mmtk_openjdk.Compiled.Bits.{compiled_bit_lem}
use mmtk_openjdk.Compiled.C1
use mmtk_openjdk.Compiled.C2
use mmtk_openjdk.Compiled.C2.{Store, UnknownLoad, can_remove_barrier}

pub c1_write_post-runtime :
    (s : Settings) (bytes : ℕ → ℕ) (src slot val : ℕ)
    → src < 2 ^ 63
    → C1.object_reference_write_post s bytes true src slot val
      ≡ object_reference_write_post s bytes object_barrier src slot val
unfolding C1.object_reference_write_post object_reference_write_post
c1_write_post-runtime s bytes src slot val small =
    ground (arith, compiled_bit_lem s.metadata_base bytes src small)

pub c1_write_pre-runtime :
    (s : Settings) (bytes : ℕ → ℕ) (src slot val : ℕ)
    → src < 2 ^ 63
    → C1.object_reference_write_pre s bytes true false src slot val
      ≡ object_reference_write_pre s bytes satb_barrier src slot val
unfolding C1.object_reference_write_pre object_reference_write_pre
c1_write_pre-runtime s bytes src slot val small =
    ground (arith, compiled_bit_lem s.metadata_base bytes src small)

-- A patched access makes the slow call in any case with the fast path on: as the runtime where the object is unlogged.
pub c1_write_pre-patched :
    (s : Settings) (bytes : ℕ → ℕ) (src slot val : ℕ)
    → (s.barrier_fastpath ≡ false) ⊎ (is_unlogged s.metadata_base bytes src ≡ true)
    → C1.object_reference_write_pre s bytes true true src slot val
      ≡ object_reference_write_pre s bytes satb_barrier src slot val
unfolding C1.object_reference_write_pre object_reference_write_pre
c1_write_pre-patched s bytes src slot val h = ground arith

pub c2_write_post-runtime :
    (s : Settings) (fastpath : Bool) (st : Store) (bytes : ℕ → ℕ) (src slot val : ℕ)
    → can_remove_barrier fastpath true st ≡ false
    → src < 2 ^ 63
    → C2.object_reference_write_post s fastpath st bytes src slot val
      ≡ object_reference_write_post s bytes object_barrier src slot val
unfolding C2.object_reference_write_post object_reference_write_post unlog_bit
c2_write_post-runtime s fastpath st bytes src slot val kept small =
    ground (arith, compiled_bit_lem s.metadata_base bytes src small)

pub c2_write_pre-runtime :
    (s : Settings) (fastpath : Bool) (st : Store) (bytes : ℕ → ℕ) (src slot val : ℕ)
    → can_remove_barrier fastpath false st ≡ false
    → src < 2 ^ 63
    → C2.object_reference_write_pre s fastpath st bytes src slot val
      ≡ object_reference_write_pre s bytes satb_barrier src slot val
unfolding C2.object_reference_write_pre object_reference_write_pre unlog_bit
c2_write_pre-runtime s fastpath st bytes src slot val kept small =
    ground (arith, compiled_bit_lem s.metadata_base bytes src small)

-- For a load of a weak oop in the heap, with `CONCURRENT_MARKING_ACTIVE` 0 or 1: the barriers of both
-- compilers make the calls of the runtime load barrier.
load_at_resolved-runtime :
    (referent_offset : ℕ) (u : UnknownLoad) (is_phantom unknown known check is_instance : Bool)
    → (offset active val : ℕ) → active ≤ 1
    → (C1.load_at_resolved true true is_phantom false check active val
        ≡ load_reference_barrier satb_barrier active val)
      × (C2.load_at_resolved referent_offset u true true true unknown known offset is_instance
            active val
          ≡ load_reference_barrier satb_barrier active val)
unfolding C1.load_at_resolved C2.load_at_resolved load_reference_barrier
load_at_resolved-runtime referent_offset u is_phantom unknown known check is_instance offset active
      val h =
    (ground arith, ground arith)

-- What the compiler knows of a load is true of the run: the constant offset is the offset, and an
-- array or an object of another class is no reference.
pub record IsTrue (u : UnknownLoad) (offset : ℕ) (is_instance : Bool) : Type 0 where
  pub constant : (u.constant_offset ≡ none) ⊎ (u.constant_offset ≡ some offset)
  pub array : u.is_array ≡ true → is_instance ≡ false
  pub other : u.is_no_reference ≡ true → is_instance ≡ false

-- For a load of unknown strength in the heap, of which the compiler knows true facts, with
-- `CONCURRENT_MARKING_ACTIVE` 0 or 1: the server compiler's filters drop the barrier exactly where the
-- load is not of the referent of a reference, and else make the calls of the runtime load barrier.
pub load_at_resolved-unknown :
    (referent_offset : ℕ) (u : UnknownLoad) (offset : ℕ) (is_instance : Bool) (active val : ℕ)
    → IsTrue u offset is_instance
    → active ≤ 1
    → C2.load_at_resolved referent_offset u true true false true true offset is_instance active val
      ≡ (if (offset == referent_offset) && is_instance
          then load_reference_barrier satb_barrier active val
          else [])
unfolding C2.load_at_resolved load_reference_barrier
load_at_resolved-unknown referent_offset u offset is_instance active val facts h =
    ground (arith, facts.array, facts.other, facts.constant)
