-- ===== src/Tests/Roots.antt =====
-- A scan of five places with buffers for two slots each.
use mmtk_openjdk.Base.{
  ℕ, ◌+◌, ◌*◌, ◌≡◌, true, false, List, [], ◌∷◌, some, arith, ◌==◌, if◌then◌else◌,
}
use mmtk_openjdk.Slots.{Place, tag, place_of, place_of-tag}
use mmtk_openjdk.Roots.{NewBuffer, Closure, ok, scan}
use mmtk_openjdk.Roots.Scan.{
  delivered, returned, WithinCapacity, received, roots_in, read, scan-roots,
}

abbrev wide : Place
wide = record { address = 4096; narrow = false }

place_of-tag_example : (slot : ℕ) × (tag true wide ≡ some slot) × (place_of true slot ≡ wide)
place_of-tag_example = place_of-tag true wide (omega arith) (λ h. ground arith)

abbrev small_buffer : ℕ → NewBuffer
small_buffer k = record { buf = 1000 * (k + 1); cap = 2 }

-- The place at 8 holds null.
abbrev oop_at : Place → ℕ
oop_at p = if p.address == 8 then 0 else 64

abbrev at : ℕ → Place
at a = record { address = a; narrow = true }

abbrev places : List Place
places = at 4 ∷ at 8 ∷ wide ∷ at 12 ∷ at 16 ∷ []

scan-roots_example :
    (c : Closure) × (scan small_buffer true oop_at places ≡ ok c)
    × (read small_buffer true oop_at (delivered c.calls) ≡ roots_in small_buffer true oop_at places)
    × (returned c.calls ≡ received small_buffer true oop_at c.issued)
    × WithinCapacity c.calls
scan-roots_example =
    scan-roots small_buffer true oop_at places (λ k. omega arith) (λ k. ground arith) (ground arith)
