-- ===== src/Slots/ScanObject.antt =====
-- `mmtk_scan_object` (openjdk/mmtkUpcalls.cpp) and its `MMTkScanObjectClosure` (openjdk/mmtkRootsClosure.hpp).
use mmtk_openjdk.Base.{ℕ, ◌≡◌, sym, Bool, List, [], ◌∷◌, Option, none, some}
use mathlib.Core.Option.{some-injective, none-ne-some}
use mmtk_openjdk.Slots.{Place, tag}

-- `do_oop_work`: the tagged pointer is a local variable, and `trace`, the slots that `_trace` has been
-- called with, stays as it is.
unfoldable pub scan_oop : (use_compressed_oops : Bool) → Place → (trace : List ℕ) → Option (List ℕ)
scan_oop use_compressed_oops p trace = elim (tag use_compressed_oops p) [
  | none ↦ none
  | some slot ↦ some trace
]

-- The closure on each field that `oop_iterate` visits.
unfoldable pub scan_object :
    (use_compressed_oops : Bool) → (fields : List Place) → (trace : List ℕ) → Option (List ℕ)
unfolding scan_oop
scan_object use_compressed_oops [] trace = some trace
scan_object use_compressed_oops (p ∷ fields) trace =
    let traced = scan_oop use_compressed_oops p trace in
    elim traced [ none ↦ none | some trace' ↦ scan_object use_compressed_oops fields trace' ]

-- Whatever the fields are: if the scan passes its guarantees, it has called `_trace` with no slot.
scan_object-silent :
    (use_compressed_oops : Bool) (fields : List Place) (trace trace' : List ℕ)
    → scan_object use_compressed_oops fields trace ≡ some trace'
    → trace' ≡ trace
unfolding scan_object scan_oop
scan_object-silent use_compressed_oops [] trace trace' = λ e. sym (some-injective _ _ e)
scan_object-silent use_compressed_oops (p ∷ fields) trace trace' =
    elim (tag use_compressed_oops p)
      as (λ t.
        (elim (elim t as (λ _. Option (List ℕ)) [ none ↦ none | some slot ↦ some trace ])
            as (λ _. Option (List ℕ)) [
              | none ↦ none
              | some u ↦ scan_object use_compressed_oops fields u
            ])
          ≡ some trace'
        → trace' ≡ trace) [
          | none ↦ (λ e. absurd (none-ne-some trace' e))
          | some slot ↦ scan_object-silent use_compressed_oops fields trace trace'
        ]
