-- ===== src/Slots.antt =====
-- The tags on slots: set by `MMTkRootsClosure` and `MMTkScanObjectClosure`
-- (openjdk/mmtkRootsClosure.hpp) and `MMTkRegisterNMethodOopClosure` (openjdk/mmtkHeap.cpp), and read
-- by `OpenJDKSlot` (mmtk/src/slots.rs). An address is a word of 64 bits. Bit 63 marks
-- a place that is not narrow: in both, against the comment on `OpenJDKSlot`.
pub mod ScanObject
use mmtk_openjdk.Base.{
  ℕ, ◌+◌, ◌*◌, ◌/◌, ◌%◌, ◌^◌, ◌<◌, ◌≡◌, Bool, true, false, not, ◌&&◌, Option, none, some, arith,
  ◌==◌, if◌then◌else◌, u64,
}

-- A place that holds an oop: `oop*`, or `narrowOop*`.
pub record Place : Type 0 where
  pub address : ℕ
  pub narrow : Bool

-- The slot for a place, `none` where the guarantee on bit 63 fails.
unfoldable pub tag : Bool → Place → Option ℕ
tag use_compressed_oops p =
    if use_compressed_oops && not p.narrow
    then (if p.address / 2 ^ 63 % 2 == 0 then some (p.address % 2 ^ 63 + 2 ^ 63) else none)
    else some p.address

-- `OpenJDKSlot::is_compressed`
unfoldable pub is_compressed : ℕ → Bool
is_compressed slot = slot / 2 ^ 63 % 2 == 0

-- `OpenJDKSlot::untagged_address`: `<< 1 >> 1`
unfoldable pub untagged_address : ℕ → ℕ
untagged_address slot = u64 (slot * 2) / 2

-- What `OpenJDKSlot::load` and `store` take a slot for: the place that they read or write, with
-- compressed oops (`COMPRESSED`) or without.
unfoldable pub place_of : Bool → ℕ → Place
unfolding is_compressed untagged_address
place_of compressed slot =
    if compressed
    then record { address = untagged_address slot; narrow = is_compressed slot }
    else record { address = slot; narrow = false }

-- For a place below 2 ^ 63, and a narrow one only with compressed oops: the C++ side makes a slot
-- of it, and the Rust side takes the slot for the same place of the same kind.
pub place_of-tag :
    (compressed : Bool) (p : Place)
    → p.address < 2 ^ 63
    → (p.narrow ≡ true → compressed ≡ true)
    → (slot : ℕ) × (tag compressed p ≡ some slot) × (place_of compressed slot ≡ p)
unfolding place_of tag
place_of-tag compressed p h k = (slot compressed p.narrow, ground arith, ground arith)
  where
    slot : Bool → Bool → ℕ
    slot true false = p.address + 2 ^ 63
    slot _ _ = p.address
