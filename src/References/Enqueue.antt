-- ===== src/References/Enqueue.antt =====
-- The pending list after `mmtk_enqueue_references`.
use mmtk_openjdk.Base.{
  ℕ, ◌≡◌, ◌≢◌, inl, inr, refl, sym, subst, true, false, List, [], ◌∷◌, ◌++◌, arith, has, not, ◌&&◌,
  Bool-cases,
}
use mmtk_openjdk.References.{null, link_all, Pending, enqueue_references}
use mmtk_openjdk.References.Link.{Chain, fresh_of, Inv, Linked, link_all-Linked}

-- A list without its repetitions: each item stays at its first place.
abbrev pub distinct : List ℕ → List ℕ
distinct xs = fresh_of [] xs

-- The first item, or `old` where there is none.
abbrev pub head_or : ℕ → List ℕ → ℕ
head_or old [] = old
head_or old (x ∷ xs) = x

-- The references that the collector hands over: proper objects that are on no list.
pub record IsUnlinked (p : Pending) (objects : List ℕ) : Type 0 where
  pub proper : (a : ℕ) → has a objects ≡ true → a ≢ null
  pub unlinked : (a : ℕ) → has a objects ≡ true → p.discovered a ≡ null

start-Inv :
    (p : Pending) (first : ℕ) (rest : List ℕ)
    → IsUnlinked p (first ∷ rest)
    → Inv (record { discovered = p.discovered; last = first }) (first ∷ []) rest
start-Inv p first rest u = record {
  last_seen = ground arith;
  last_open = ground (arith, u.unlinked first);
  linked = λ a h ne. ground arith;
  open_left = λ a n h. ground (arith, u.unlinked a);
  objects = λ a h. ground (arith, u.proper a);
}

module _ (p : Pending) (first : ℕ) (rest : List ℕ) (u : IsUnlinked p (first ∷ rest)) where
  linked :
      Linked
        (link_all (record { discovered = p.discovered; last = first }) rest)
        (record { discovered = p.discovered; last = first })
        (first ∷ [])
        rest
        p.pending_list
  linked = link_all-Linked _ (first ∷ []) rest p.pending_list (start-Inv p first rest u)

fields_linked :
    (p : Pending) (objects : List ℕ)
    → IsUnlinked p objects
    → let p' = enqueue_references objects p in
      Chain p'.discovered p'.pending_list (distinct objects) p.pending_list
      × ((a : ℕ) → has a objects ≡ false → p'.discovered a ≡ p.discovered a)
unfolding enqueue_references
fields_linked p [] u = (refl, λ a h. refl)
fields_linked p (first ∷ rest) u = (
  (linked p first rest u).chain,
  λ a h. (linked p first rest u).same a (ground arith) (ground arith),
)

-- No item occurs twice.
abbrev pub IsDistinct : List ℕ → Type 0
IsDistinct [] = Unit
IsDistinct (x ∷ xs) = (has x xs ≡ false) × IsDistinct xs

has-fresh_of :
    (a : ℕ) (seen xs : List ℕ) → has a (fresh_of seen xs) ≡ (has a xs && not (has a seen))
has-fresh_of a seen [] = refl
has-fresh_of a seen (x ∷ xs) = ground (arith, has-fresh_of a seen xs, has-fresh_of a (x ∷ seen) xs)

fresh_of-IsDistinct : (seen xs : List ℕ) → IsDistinct (fresh_of seen xs)
fresh_of-IsDistinct seen [] = tt
fresh_of-IsDistinct seen (x ∷ xs) = elim (Bool-cases (has x seen)) [
  | inl old ↦ rw (old, IsDistinct) (fresh_of-IsDistinct seen xs)
  | inr new ↦
      rw (new, IsDistinct)
        (ground (arith, has-fresh_of x (x ∷ seen) xs), fresh_of-IsDistinct (x ∷ seen) xs)
]

Chain-append :
    (d : ℕ → ℕ) (xs ys : List ℕ) (p q r : ℕ)
    → Chain d p xs q
    → Chain d q ys r
    → Chain d p (xs ++ ys) r
Chain-append d [] ys p q r h k = subst (λ v. Chain d v ys r) (sym h) k
Chain-append d (x ∷ xs) ys p q r h k = (h.0, Chain-append d xs ys (d x) q r h.1 k)

Chain-same :
    (d d' : ℕ → ℕ) (xs : List ℕ) (p q : ℕ)
    → ((a : ℕ) → has a xs ≡ true → d' a ≡ d a)
    → Chain d p xs q
    → Chain d' p xs q
Chain-same d d' [] p q same h = h
Chain-same d d' (x ∷ xs) p q same h = (
  h.0,
  subst (λ v. Chain d' v xs q) (sym (same x (ground arith)))
      (Chain-same d d' xs (d x) q (λ a i. same a (ground arith)) h.1),
)

-- For an array of references, with repetitions, that are proper objects, whose `discovered` fields
-- are `NULL`, and none of which is on the old pending list `olds`: afterwards the pending list holds
-- each reference of the array once, in the order of their first places, and then `olds` as it was,
-- and ends in `NULL`.
pub enqueue_references-append :
    (p : Pending) (objects olds : List ℕ)
    → IsUnlinked p objects
    → Chain p.discovered p.pending_list olds null
    → ((a : ℕ) → has a olds ≡ true → has a objects ≡ false)
    → let p' = enqueue_references objects p in
      Chain p'.discovered p'.pending_list (distinct objects ++ olds) null
enqueue_references-append p objects olds u old apart =
    let (front, same) = fields_linked p objects u in
    let p' = enqueue_references objects p in
    Chain-append p'.discovered (distinct objects) olds p'.pending_list p.pending_list null front (
      Chain-same p.discovered p'.discovered olds p.pending_list null (λ a i. same a (apart a i))
        old)

-- For an array of references that are proper objects with `NULL` in their `discovered` fields:
-- afterwards the `discovered` fields lead from the head of the pending list to the old head through
-- distinct references, which are those of the array; and no other object's field has changed.
pub enqueue_references-distinct :
    (p : Pending) (objects : List ℕ)
    → IsUnlinked p objects
    → let p' = enqueue_references objects p in
      Chain p'.discovered p'.pending_list (distinct objects) p.pending_list
      × IsDistinct (distinct objects)
      × ((a : ℕ) → has a (distinct objects) ≡ has a objects)
      × ((a : ℕ) → has a objects ≡ false → p'.discovered a ≡ p.discovered a)
enqueue_references-distinct p objects u =
    let (front, same) = fields_linked p objects u in
    (front, fresh_of-IsDistinct [] objects, λ a. ground (arith, has-fresh_of a [] objects), same)
