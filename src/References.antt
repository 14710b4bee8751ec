-- ===== src/References.antt =====
-- `mmtk_enqueue_references` (openjdk/mmtkUpcalls.cpp): it links the references that the collector
-- found through their `discovered` fields, and puts them before the VM's pending list.
pub mod Link
pub mod Enqueue
use mmtk_openjdk.Base.{ℕ, List, [], ◌∷◌, ◌==◌, if◌then◌else◌}

-- An oop is its address, and 0 is `NULL`.
abbrev pub null : ℕ
null = 0

-- `oop_store_at(obj, discovered_offset, v)`
abbrev pub write : (ℕ → ℕ) → ℕ → ℕ → ℕ → ℕ
write d obj v a = if a == obj then v else d a

-- The variables of the loop: the `discovered` field of each reference, and `last`.
pub record Links : Type 0 where
  pub discovered : ℕ → ℕ
  pub last : ℕ

-- One round of the loop.
unfoldable pub visit : Links → ℕ → Links
visit l reff =
    if reff == l.last
    then l
    else if l.discovered reff == null
    then record { discovered = write l.discovered l.last reff; last = reff }
    else l

-- The rounds from `i = 1`.
unfoldable pub link_all : Links → List ℕ → Links
unfolding visit
link_all l [] = l
link_all l (reff ∷ rest) = link_all (visit l reff) rest

pub record Pending : Type 0 where
  pub discovered : ℕ → ℕ
  pub pending_list : ℕ  -- of `Universe`

-- The swap of the pending list, and the store behind it.
unfoldable pub publish : ℕ → Links → ℕ → Pending
publish first l old_first = record {
  discovered = write l.discovered l.last old_first;
  pending_list = first;
}

unfoldable pub enqueue_references : List ℕ → Pending → Pending
unfolding link_all publish
enqueue_references [] p = p
enqueue_references (first ∷ rest) p =
    publish first (link_all (record { discovered = p.discovered; last = first }) rest)
      p.pending_list
