-- ===== src/CodeCache.antt =====
-- The roots in compiled code: `MMTkHeap::register_nmethod` and `unregister_nmethod`
-- (openjdk/mmtkHeap.cpp), the tables that they fill (mmtk/src/api.rs), and the scan of these tables in a
-- GC (`ScanCodeCacheRoots`, mmtk/src/gc_work.rs). The places in an nmethod that `oops_do` visits are an
-- argument.
pub mod Scan
pub mod Registered
use mmtk_openjdk.Base.{
  ℕ, Bool, true, false, Option, none, some, List, [], ◌∷◌, ◌++◌, leb, ◌==◌, if◌then◌else◌, length,
}
use mmtk_openjdk.Slots.{Place, tag}

-- A `HashMap` from nmethods to their slots. It iterates in no order in particular; here the last entry
-- comes first.
abbrev pub Table : Type 0
Table = List (ℕ × List ℕ)

abbrev pub lookup : ℕ → Table → Option (List ℕ)
lookup nm [] = none
lookup nm ((k, slots) ∷ rest) = if nm == k then some slots else lookup nm rest

abbrev pub remove : ℕ → Table → Table
remove nm [] = []
remove nm ((k, slots) ∷ rest) =
    let rest' = remove nm rest in (if nm == k then rest' else (k, slots) ∷ rest')

abbrev pub insert : ℕ → List ℕ → Table → Table
insert nm slots t = (nm, slots) ∷ remove nm t

-- `NURSERY_CODE_CACHE_ROOTS`, `MATURE_CODE_CACHE_ROOTS`, and the `NMETHOD_SLOTS` of the thread that
-- registers an nmethod.
pub record CodeRoots : Type 0 where
  pub nursery : Table
  pub mature : Table
  pub cached : List ℕ

abbrev pub no_code : CodeRoots
no_code = record { nursery = []; mature = []; cached = [] }

-- `mmtk_add_nmethod_oop`
unfoldable pub add_nmethod_oop : ℕ → CodeRoots → CodeRoots
add_nmethod_oop slot r = record r { cached = r.cached ++ slot ∷ [] }

add_tagged : Option ℕ → CodeRoots → Option CodeRoots
unfolding add_nmethod_oop
add_tagged none r = none
add_tagged (some slot) r = some (add_nmethod_oop slot r)

abbrev pub and_then : Option CodeRoots → (CodeRoots → Option CodeRoots) → Option CodeRoots
and_then none k = none
and_then (some r) k = k r

-- `nm->oops_do` with an `MMTkRegisterNMethodOopClosure`; `none` is a failed guarantee.
unfoldable pub nmethod_oops_do : Bool → List Place → CodeRoots → Option CodeRoots
unfolding add_tagged
nmethod_oops_do use_compressed_oops [] r = some r
nmethod_oops_do use_compressed_oops (p ∷ rest) r =
    and_then (add_tagged (tag use_compressed_oops p) r) (nmethod_oops_do use_compressed_oops rest)

abbrev pub is_empty : List ℕ → Bool
is_empty [] = true
is_empty (x ∷ xs) = false

-- `mmtk_register_nmethod`
unfoldable pub mmtk_register_nmethod : ℕ → CodeRoots → CodeRoots
mmtk_register_nmethod nm r =
    if is_empty r.cached
    then r
    else record r { nursery = insert nm r.cached r.nursery; cached = [] }

-- `MMTkHeap::register_nmethod`
unfoldable pub register_nmethod : Bool → ℕ → List Place → CodeRoots → Option CodeRoots
unfolding nmethod_oops_do mmtk_register_nmethod
register_nmethod use_compressed_oops nm places r =
    and_then (nmethod_oops_do use_compressed_oops places r)
      (λ r'. some (mmtk_register_nmethod nm r'))

-- `MMTkHeap::unregister_nmethod`
unfoldable pub unregister_nmethod : ℕ → CodeRoots → CodeRoots
unregister_nmethod nm r = record r { nursery = remove nm r.nursery; mature = remove nm r.mature }

-- The work of a scan: the packets made, and the slots for the next one.
pub record Packets : Type 0 where
  pub made : List (List ℕ)
  pub slots : List ℕ

-- The closure `add_roots`, with `WORK_PACKET_CAPACITY`
unfoldable pub add_roots : ℕ → List ℕ → Packets → Packets
add_roots capacity [] p = p
add_roots capacity (root ∷ rest) p =
    let slots = p.slots ++ root ∷ [] in
    let full : Packets = record { made = p.made ++ slots ∷ []; slots = [] } in
    add_roots capacity rest
      (if leb capacity (length slots) then full else record { made = p.made; slots = slots })

unfoldable pub add_all : ℕ → Table → Packets → Packets
unfolding add_roots
add_all capacity [] p = p
add_all capacity ((nm, roots) ∷ rest) p = add_roots capacity roots (add_all capacity rest p)

-- `nursery.drain()`, with each entry's insertion into the mature table
unfoldable pub drain : Table → Table → Table
drain [] mature = mature
drain ((nm, roots) ∷ rest) mature = insert nm roots (drain rest mature)

unfoldable pub finish : Packets → List (List ℕ)
finish p = if is_empty p.slots then p.made else p.made ++ p.slots ∷ []

-- `ScanCodeCacheRoots::do_work`: the packets made, and the tables behind it.
unfoldable pub scan_code_cache : ℕ → (is_nursery_gc : Bool) → CodeRoots → List (List ℕ) × CodeRoots
unfolding add_all drain finish
scan_code_cache capacity is_nursery_gc r =
    let p : Packets =
      add_all capacity (if is_nursery_gc then [] else r.mature)
        (record { made = []; slots = [] }) in
    (
      finish (add_all capacity r.nursery p),
      record r { nursery = []; mature = drain r.nursery r.mature },
    )

-- What happens to the tables.
pub data Event : Type 0 where
  register : (nm : ℕ) (places : List Place) → Event
  unregister : (nm : ℕ) → Event
  collect : (is_nursery_gc : Bool) → Event

unfoldable pub step : Bool → ℕ → Event → CodeRoots → Option CodeRoots
unfolding register_nmethod unregister_nmethod scan_code_cache
step use_compressed_oops capacity (register nm places) r =
    register_nmethod use_compressed_oops nm places r
step use_compressed_oops capacity (unregister nm) r = some (unregister_nmethod nm r)
step use_compressed_oops capacity (collect is_nursery_gc) r =
    some (scan_code_cache capacity is_nursery_gc r).1

unfoldable pub run : Bool → ℕ → List Event → CodeRoots → Option CodeRoots
unfolding step
run use_compressed_oops capacity [] r = some r
run use_compressed_oops capacity (e ∷ rest) r =
    and_then (step use_compressed_oops capacity e r) (run use_compressed_oops capacity rest)
