-- ===== src/CodeCache/Scan.antt =====
-- What the operations on the tables of code roots do: the entries that they leave, and the slots that a
-- scan delivers.
use mathlib.Core.List.{append_assoc, append-nil}
use mmtk_openjdk.Base.{
  ℕ, ◌≡◌, refl, sym, ◌⊎◌, inl, inr, Bool, true, false, Option, none, some, List, [], ◌∷◌, ◌++◌,
  arith, leb, ◌==◌, if◌then◌else◌, length, Bool-cases,
}
use mmtk_openjdk.CodeCache.{
  Table, lookup, remove, insert, CodeRoots, Packets, add_roots, add_all, drain, finish,
  scan_code_cache,
}

abbrev pub Among : {A : Type 0} → A → List A → Type 0
Among a [] = ⊥
Among a (x ∷ xs) = (a ≡ x) ⊎ Among a xs

abbrev pub concat : List (List ℕ) → List ℕ
concat [] = []
concat (x ∷ xs) = x ++ concat xs

pub Among-left : {A : Type 0} (a : A) (xs ys : List A) → Among a xs → Among a (xs ++ ys)
Among-left a [] ys m = absurd m
Among-left a (x ∷ xs) ys (inl e) = inl e
Among-left a (x ∷ xs) ys (inr m) = inr (Among-left a xs ys m)

pub Among-right : {A : Type 0} (a : A) (xs ys : List A) → Among a ys → Among a (xs ++ ys)
Among-right a [] ys m = m
Among-right a (x ∷ xs) ys m = inr (Among-right a xs ys m)

concat-append : (xs ys : List (List ℕ)) → concat (xs ++ ys) ≡ concat xs ++ concat ys
concat-append [] ys = refl
concat-append (x ∷ xs) ys = simp (concat-append xs ys, append_assoc)

-- The first of two answers that there is.
abbrev pub or_else {ℓ} : {A : Type ℓ} → Option A → Option A → Option A
or_else none o = o
or_else (some a) o = some a

pub lookup-remove :
    (nm k : ℕ) (t : Table) → lookup nm (remove k t) ≡ (if nm == k then none else lookup nm t)
lookup-remove nm k [] = ground arith
lookup-remove nm k ((j, slots) ∷ rest) = ground (arith, lookup-remove nm k rest)

pub lookup-insert :
    (nm k : ℕ) (slots : List ℕ) (t : Table)
    → lookup nm (insert k slots t) ≡ (if nm == k then some slots else lookup nm t)
lookup-insert nm k slots t = ground (arith, lookup-remove nm k t)

pub lookup-drain :
    (nm : ℕ) (t m : Table) → lookup nm (drain t m) ≡ or_else (lookup nm t) (lookup nm m)
unfolding drain
lookup-drain nm [] m = refl
lookup-drain nm ((k, roots) ∷ rest) m =
    ground (arith, lookup-insert nm k roots (drain rest m), lookup-drain nm rest m)

-- All slots that a scan has gathered, in order.
abbrev gathered : Packets → List ℕ
gathered p = concat p.made ++ p.slots

abbrev pub all_slots : Table → List ℕ
all_slots [] = []
all_slots ((nm, slots) ∷ rest) = all_slots rest ++ slots

add_roots-gathered :
    (capacity : ℕ) (roots : List ℕ) (p : Packets)
    → gathered (add_roots capacity roots p) ≡ gathered p ++ roots
unfolding add_roots
add_roots-gathered capacity [] p = sym (append-nil _)
add_roots-gathered capacity (root ∷ rest) p =
    elim (Bool-cases (leb capacity (length (p.slots ++ root ∷ [])))) [
      | inl e ↦ simp (e, add_roots-gathered capacity rest, concat-append, append-nil, append_assoc)
      | inr e ↦ simp (e, add_roots-gathered capacity rest, append_assoc)
    ]

add_all-gathered :
    (capacity : ℕ) (t : Table) (p : Packets)
    → gathered (add_all capacity t p) ≡ gathered p ++ all_slots t
unfolding add_all
add_all-gathered capacity [] p = sym (append-nil _)
add_all-gathered capacity ((nm, roots) ∷ rest) p =
    simp (add_roots-gathered, add_all-gathered capacity rest, append_assoc)

finish-gathered : (p : Packets) → concat (finish p) ≡ gathered p
unfolding finish
finish-gathered p = by_slots p.made p.slots
  where
    by_slots :
        (made : List (List ℕ)) (slots : List ℕ)
        → concat (finish (record { made = made; slots = slots })) ≡ concat made ++ slots
    by_slots made [] = sym (append-nil _)
    by_slots made (s ∷ slots) = simp (concat-append, append-nil)

-- A scan delivers the slots of the mature table unless the GC is a nursery GC, and of the other table.
pub scan-gathered :
    (capacity : ℕ) (is_nursery_gc : Bool) (r : CodeRoots)
    → concat (scan_code_cache capacity is_nursery_gc r).0
      ≡ (if is_nursery_gc then [] else all_slots r.mature) ++ all_slots r.nursery
unfolding scan_code_cache
scan-gathered capacity true r = simp (finish-gathered, add_all-gathered)
scan-gathered capacity false r = simp (finish-gathered, add_all-gathered)
