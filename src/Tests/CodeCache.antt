-- ===== src/Tests/CodeCache.antt =====
-- Two nmethods, one of them unregistered and one scanned by a nursery GC.
use mmtk_openjdk.Base.{ℕ, ◌≡◌, true, false, none, some, List, [], ◌∷◌, arith}
use mmtk_openjdk.Slots.{Place}
use mmtk_openjdk.CodeCache.{
  CodeRoots, Event, register, unregister, collect, no_code, run, scan_code_cache,
}
use mmtk_openjdk.CodeCache.Scan.{Among, concat}
use mmtk_openjdk.CodeCache.Registered.{HasProper, read, registered, fresh, scan-registered}

abbrev pub slot_a : Place
slot_a = record { address = 4096; narrow = false }

abbrev pub slot_b : Place
slot_b = record { address = 4104; narrow = true }

abbrev pub history : List Event
history =
    register 1 (slot_a ∷ slot_b ∷ [])
    ∷ register 2 (slot_b ∷ [])
    ∷ collect true
    ∷ unregister 2
    ∷ register 3 []
    ∷ []

pub history-HasProper : HasProper true history
history-HasProper = ground arith

scan-registered_example :
    (r : CodeRoots) × (run true 4096 history no_code ≡ some r)
    × ((nm : ℕ) (places : List Place) (p : Place)
        → registered nm history none ≡ some places
        → Among p places
        → Among p (read true (concat (scan_code_cache 4096 false r).0)))
    × ((nm : ℕ) (places : List Place) (p : Place)
        → fresh nm history none ≡ some places
        → Among p places
        → Among p (read true (concat (scan_code_cache 4096 true r).0)))
scan-registered_example = scan-registered true 4096 history history-HasProper
