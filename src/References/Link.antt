-- ===== src/References/Link.antt =====
-- What the linking loop does to references that are not linked yet, in a list with repetitions.
use mmtk_openjdk.Base.{
  ℕ, ◌≡◌, ◌≢◌, ◌⊎◌, inl, inr, refl, sym, subst, true, false, List, [], ◌∷◌, arith, ◌==◌, Bool-cases,
  has,
}
use mmtk_openjdk.References.{null, write, Links, visit, link_all}

-- From `p` the fields `d` lead through `xs`, in order, to `q`.
abbrev pub Chain : (ℕ → ℕ) → ℕ → List ℕ → ℕ → Type 0
Chain d p [] q = p ≡ q
Chain d p (x ∷ xs) q = (p ≡ x) × Chain d (d x) xs q

-- The items of a list that are not in `seen`, each at its first place only.
abbrev pub fresh_of : List ℕ → List ℕ → List ℕ
fresh_of seen [] = []
fresh_of seen (x ∷ xs) = elim (has x seen) [
  | true ↦ fresh_of seen xs
  | false ↦ x ∷ fresh_of (x ∷ seen) xs
]

-- Between two rounds: `seen` is linked up to `last`, and what else is left is not.
pub record Inv (l : Links) (seen left : List ℕ) : Type 0 where
  pub last_seen : has l.last seen ≡ true
  pub last_open : l.discovered l.last ≡ null
  pub linked : (a : ℕ) → has a seen ≡ true → a ≢ l.last → l.discovered a ≢ null
  pub open_left : (a : ℕ) → has a seen ≡ false → has a left ≡ true → l.discovered a ≡ null
  pub objects : (a : ℕ) → has a left ≡ true → a ≢ null

-- What holds at the loop's end once the last reference found is given the successor `q`.
pub record Linked (end l : Links) (seen left : List ℕ) (q : ℕ) : Type 0 where
  pub chain : Chain (write end.discovered end.last q) l.last (l.last ∷ fresh_of seen left) q
  pub same :
      (a : ℕ)
      → a ≢ l.last
      → (has a seen ≡ true) ⊎ (has a left ≡ false)
      → write end.discovered end.last q a ≡ l.discovered a

data Round (l : Links) (seen : List ℕ) (r : ℕ) : Type 0 where
  skipped : visit l r ≡ l → has r seen ≡ true → Round l seen r
  taken :
      visit l r ≡ record { discovered = write l.discovered l.last r; last = r }
      → has r seen ≡ false
      → r ≢ l.last
      → Round l seen r

round : (l : Links) (seen left : List ℕ) (r : ℕ) → Inv l seen (r ∷ left) → Round l seen r
unfolding visit
round l seen left r inv = elim (Bool-cases (r == l.last)) [
  | inl e ↦ skipped (rw e) (ground (arith, inv.last_seen))
  | inr ne ↦ elim (Bool-cases (l.discovered r == null)) [
    | inl e ↦ taken (rw (ne, e)) (ground (arith, inv.linked r)) (ground arith)
    | inr e ↦ skipped (rw (ne, e)) (ground (arith, inv.open_left r))
  ]
]

skip-Inv : (l : Links) (seen left : List ℕ) (r : ℕ) → Inv l seen (r ∷ left) → Inv l seen left
skip-Inv l seen left r inv = record {
  last_seen = inv.last_seen;
  last_open = inv.last_open;
  linked = inv.linked;
  open_left = λ a u h. ground (arith, inv.open_left a);
  objects = λ a h. ground (arith, inv.objects a);
}

take-Inv :
    (l : Links) (seen left : List ℕ) (r : ℕ)
    → Inv l seen (r ∷ left)
    → has r seen ≡ false
    → r ≢ l.last
    → Inv (record { discovered = write l.discovered l.last r; last = r }) (r ∷ seen) left
take-Inv l seen left r inv new ne = record {
  last_seen = ground arith;
  last_open = ground (arith, inv.open_left r);
  linked = λ a h u. ground (arith, inv.linked a, inv.objects r);
  open_left = λ a u h. ground (arith, inv.open_left a, inv.last_seen);
  objects = λ a h. ground (arith, inv.objects a);
}

skip-Linked :
    (end l : Links) (seen left : List ℕ) (q r : ℕ)
    → has r seen ≡ true
    → Linked end l seen left q
    → Linked end l seen (r ∷ left) q
skip-Linked end l seen left q r old ih = record {
  chain = rw old ih.chain;
  same = λ a ne u. ground (arith, ih.same a);
}

take-Linked :
    (end l : Links) (seen left : List ℕ) (q r : ℕ)
    → Inv l seen (r ∷ left)
    → has r seen ≡ false
    → r ≢ l.last
    → Linked end (record { discovered = write l.discovered l.last r; last = r }) (r ∷ seen) left q
    → Linked end l seen (r ∷ left) q
take-Linked end l seen left q r inv new ne ih = record {
  chain = rw new (refl, (ground (arith, ih.same l.last, inv.last_seen), ih.chain.1));
  same = λ a u h. ground (arith, ih.same a, inv.last_seen);
}

pub link_all-Linked :
    (l : Links) (seen left : List ℕ) (q : ℕ)
    → Inv l seen left
    → Linked (link_all l left) l seen left q
unfolding link_all
link_all-Linked l seen [] q inv = record {
  chain = (refl, ground arith);
  same = λ a ne u. ground arith;
}
link_all-Linked l seen (r ∷ left) q inv = elim (round l seen left r inv) [
  | skipped e old ↦
      subst (λ v. Linked (link_all v left) l seen (r ∷ left) q) (sym e)
        (skip-Linked (link_all l left) l seen left q r old
          (link_all-Linked l seen left q (skip-Inv l seen left r inv)))
  | taken e new ne ↦
      subst (λ v. Linked (link_all v left) l seen (r ∷ left) q) (sym e)
        (take-Linked _ l seen left q r inv new ne (
          link_all-Linked (record { discovered = write l.discovered l.last r; last = r }) (r ∷ seen)
            left q (take-Inv l seen left r inv new ne)))
]
