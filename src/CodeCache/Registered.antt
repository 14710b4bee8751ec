-- ===== src/CodeCache/Registered.antt =====
-- No root in compiled code is lost: a GC scans every nmethod that is registered, and a nursery GC those
-- that were registered since the last GC.
use mathlib.Core.List.{append_assoc, append-nil, map-append}
use mmtk_openjdk.Base.{
  ℕ, ◌^◌, ◌<◌, ◌≡◌, refl, sym, subst, inl, inr, Bool, true, false, Option, none, some, List, [],
  ◌∷◌, ◌++◌, map, arith, ◌==◌, if◌then◌else◌, Bool-cases,
}
use mmtk_openjdk.Slots.{Place, place_of, place_of-tag}
use mmtk_openjdk.CodeCache.{
  Table, lookup, CodeRoots, no_code, nmethod_oops_do, add_tagged, register_nmethod,
  mmtk_register_nmethod, unregister_nmethod, scan_code_cache, Event, register, unregister, collect,
  step, run,
}
use mmtk_openjdk.CodeCache.Scan.{
  Among, Among-left, Among-right, concat, or_else, lookup-remove, lookup-insert, lookup-drain,
  all_slots, scan-gathered,
}

-- The places of an nmethod after an event, from those before: an nmethod without places stays out.
abbrev pub after : ℕ → Event → Option (List Place) → Option (List Place)
after nm (register k []) old = old
after nm (register k (p ∷ ps)) old = if nm == k then some (p ∷ ps) else old
after nm (unregister k) old = if nm == k then none else old
after nm (collect b) old = old

-- The places of an nmethod that is registered at the end.
abbrev pub registered : ℕ → List Event → Option (List Place) → Option (List Place)
registered nm [] old = old
registered nm (e ∷ rest) old = registered nm rest (after nm e old)

-- The same of one that was registered since the last GC.
abbrev pub fresh_after : ℕ → Event → Option (List Place) → Option (List Place)
fresh_after nm (collect b) old = none
fresh_after nm e old = after nm e old

abbrev pub fresh : ℕ → List Event → Option (List Place) → Option (List Place)
fresh nm [] old = old
fresh nm (e ∷ rest) old = fresh nm rest (fresh_after nm e old)

module _ (use_compressed_oops : Bool) where
  abbrev pub read : List ℕ → List Place
  read = map (place_of use_compressed_oops)

  abbrev pub AreProper : List Place → Type 0
  AreProper [] = Unit
  AreProper (p ∷ rest) =
      (p.address < 2 ^ 63) × (p.narrow ≡ true → use_compressed_oops ≡ true) × AreProper rest

  -- Every place of an nmethod that is registered has an address below 2 ^ 63, and is narrow only with
  -- compressed oops.
  abbrev pub HasProper : List Event → Type 0
  HasProper [] = Unit
  HasProper (register nm places ∷ rest) = AreProper places × HasProper rest
  HasProper (e ∷ rest) = HasProper rest

  nmethod_oops_do-read :
      (places : List Place) (r : CodeRoots)
      → AreProper places
      → (slots : List ℕ) × (nmethod_oops_do use_compressed_oops places r
          ≡ some (record r { cached = r.cached ++ slots }))
        × (read slots ≡ places)
  unfolding nmethod_oops_do add_tagged
  nmethod_oops_do-read [] r proper = ([], rw append-nil refl, refl)
  nmethod_oops_do-read (p ∷ rest) r proper =
      let (slot, tagged, back) = place_of-tag use_compressed_oops p proper.0 proper.1 in
      let r' : CodeRoots = record r { cached = r.cached ++ slot ∷ [] } in
      let (slots, done, back') = nmethod_oops_do-read rest r' proper.2 in
      (slot ∷ slots, simp (tagged, done, append_assoc), simp (back, back'))

  -- The slots in a table stand for the places of the history.
  abbrev Matches : Option (List ℕ) → Option (List Place) → Type 0
  Matches none none = Unit
  Matches (some slots) (some places) = read slots ≡ places
  Matches _ _ = ⊥

  -- Between two events: what the tables hold is what the history says.
  record Keeps (r : CodeRoots) (held young : ℕ → Option (List Place)) : Type 0 where
    nothing_cached : r.cached ≡ []
    all_held : (nm : ℕ) → Matches (or_else (lookup nm r.nursery) (lookup nm r.mature)) (held nm)
    young_held : (nm : ℕ) → Matches (lookup nm r.nursery) (young nm)

  mmtk_register-Keeps :
      (nm : ℕ) (places : List Place) (slots : List ℕ) (r : CodeRoots)
      → (held young : ℕ → Option (List Place)) → read slots ≡ places
      → Keeps r held young
      → Keeps
          (mmtk_register_nmethod nm (record r { cached = slots }))
          (λ k. after k (register nm places) (held k))
          (λ k. fresh_after k (register nm places) (young k))
  unfolding mmtk_register_nmethod
  mmtk_register-Keeps nm [] [] r held young e k = record {
    nothing_cached = refl;
    all_held = k.all_held;
    young_held = k.young_held;
  }
  mmtk_register-Keeps nm (p ∷ ps) [] r held young e k = ground arith
  mmtk_register-Keeps nm [] (s ∷ slots) r held young e k = ground arith
  mmtk_register-Keeps nm (p ∷ ps) (s ∷ slots) r held young e k = record {
    nothing_cached = refl;
    all_held = λ j. ground (arith, lookup-insert j nm (s ∷ slots) r.nursery, k.all_held j);
    young_held = λ j. ground (arith, lookup-insert j nm (s ∷ slots) r.nursery, k.young_held j);
  }

  unregister-Keeps :
      (nm : ℕ) (r : CodeRoots) (held young : ℕ → Option (List Place))
      → Keeps r held young
      → Keeps
          (unregister_nmethod nm r)
          (λ k. after k (unregister nm) (held k))
          (λ k. fresh_after k (unregister nm) (young k))
  unfolding unregister_nmethod
  unregister-Keeps nm r held young k = record {
    nothing_cached = k.nothing_cached;
    all_held = λ j.
        ground (arith, lookup-remove j nm r.nursery, lookup-remove j nm r.mature, k.all_held j);
    young_held = λ j. ground (arith, lookup-remove j nm r.nursery, k.young_held j);
  }

  scan-Keeps :
      (capacity : ℕ) (b : Bool) (r : CodeRoots) (held young : ℕ → Option (List Place))
      → Keeps r held young
      → Keeps (scan_code_cache capacity b r).1 held (λ _. none)
  unfolding scan_code_cache
  scan-Keeps capacity b r held young k = record {
    nothing_cached = k.nothing_cached;
    all_held = λ j. rw (lookup-drain j r.nursery r.mature) (k.all_held j);
    young_held = λ j. tt;
  }

  -- An event goes through, and the tables follow the history.
  abbrev GoesThrough : ℕ → Event → CodeRoots → (held young : ℕ → Option (List Place)) → Type 0
  GoesThrough capacity e r held young =
      (r' : CodeRoots) × (step use_compressed_oops capacity e r ≡ some r')
      × Keeps r' (λ k. after k e (held k)) (λ k. fresh_after k e (young k))

  register-GoesThrough :
      (capacity nm : ℕ) (places : List Place) (r : CodeRoots)
      → (held young : ℕ → Option (List Place)) → AreProper places
      → Keeps r held young
      → GoesThrough capacity (register nm places) r held young
  unfolding step register_nmethod
  register-GoesThrough capacity nm places r held young proper k =
      let (slots, done, back) = nmethod_oops_do-read places r proper in
      (
        mmtk_register_nmethod nm (record r { cached = slots }),
        simp (done, k.nothing_cached),
        mmtk_register-Keeps nm places slots r held young back k,
      )

  step-GoesThrough :
      (capacity : ℕ) (e : Event) (rest : List Event) (r : CodeRoots)
      → (held young : ℕ → Option (List Place)) → HasProper (e ∷ rest)
      → Keeps r held young
      → GoesThrough capacity e r held young × HasProper rest
  unfolding step
  step-GoesThrough capacity (register nm places) rest r held young proper k =
      (register-GoesThrough capacity nm places r held young proper.0 k, proper.1)
  step-GoesThrough capacity (unregister nm) rest r held young proper k =
      ((_, refl, unregister-Keeps nm r held young k), proper)
  step-GoesThrough capacity (collect b) rest r held young proper k =
      ((_, refl, scan-Keeps capacity b r held young k), proper)

  run-Keeps :
      (capacity : ℕ) (events : List Event) (r : CodeRoots) (held young : ℕ → Option (List Place))
      → HasProper events
      → Keeps r held young
      → (r' : CodeRoots) × (run use_compressed_oops capacity events r ≡ some r')
        × Keeps r' (λ k. registered k events (held k)) (λ k. fresh k events (young k))
  unfolding run
  run-Keeps capacity [] r held young proper k = (r, refl, k)
  run-Keeps capacity (e ∷ rest) r held young proper k =
      let ((r', done, k'), proper') = step-GoesThrough capacity e rest r held young proper k in
      let (r'', rest_done, k'') =
        run-Keeps capacity rest r' (λ j. after j e (held j)) (λ j. fresh_after j e (young j))
          proper' k' in
      (r'', rw done rest_done, k'')

  -- What a table holds for an nmethod is among all of its slots.
  lookup-Among :
      (nm : ℕ) (t : Table) (slots : List ℕ) (p : Place)
      → lookup nm t ≡ some slots
      → Among p (read slots)
      → Among p (read (all_slots t))
  lookup-Among nm [] slots p e m = ground arith
  lookup-Among nm ((k, own) ∷ rest) slots p e m = elim (Bool-cases (nm == k)) [
    | inl same ↦ rw map-append (
        Among-right p (read (all_slots rest)) (read own)
          (subst (λ x. Among p (read x)) (ground arith) m))
    | inr other ↦ rw map-append (
        Among-left p (read (all_slots rest)) (read own)
          (lookup-Among nm rest slots p (ground arith) m))
  ]

  Matches-Among :
      (nm : ℕ) (t : Table) (found : Option (List ℕ)) (places : List Place) (p : Place)
      → lookup nm t ≡ found
      → Matches found (some places)
      → Among p places
      → Among p (read (all_slots t))
  Matches-Among nm t none places p e h m = absurd h
  Matches-Among nm t (some slots) places p e h m =
      lookup-Among nm t slots p e (subst (Among p) (sym h) m)

  -- One of the two tables has the places.
  held-Among :
      (nm : ℕ) (r : CodeRoots) (places : List Place) (p : Place)
      → Matches (or_else (lookup nm r.nursery) (lookup nm r.mature)) (some places)
      → Among p places
      → Among p (read (all_slots r.mature ++ all_slots r.nursery))
  held-Among nm r places p h m = by_table (lookup nm r.nursery) refl h
    where
      by_table :
          (found : Option (List ℕ))
          → lookup nm r.nursery ≡ found
          → Matches (or_else found (lookup nm r.mature)) (some places)
          → Among p (read (all_slots r.mature ++ all_slots r.nursery))
      by_table none e h' = rw map-append (
          Among-left p (read (all_slots r.mature)) _
            (Matches-Among nm r.mature (lookup nm r.mature) places p refl h' m))
      by_table (some slots) e h' = rw map-append (
          Among-right p (read (all_slots r.mature)) _
            (Matches-Among nm r.nursery (some slots) places p e h' m))

-- Where every place reported has an address below 2 ^ 63 and is narrow only with compressed oops: any
-- history of registrations, unregistrations and GCs goes through without a failed guarantee, and at its
-- end a full GC delivers, as `OpenJDKSlot` reads them, all places of every nmethod that is registered,
-- and a nursery GC all places of every nmethod registered since the last GC.
pub scan-registered :
    (use_compressed_oops : Bool) (capacity : ℕ) (events : List Event)
    → HasProper use_compressed_oops events
    → (r : CodeRoots) × (run use_compressed_oops capacity events no_code ≡ some r)
      × ((nm : ℕ) (places : List Place) (p : Place)
          → registered nm events none ≡ some places
          → Among p places
          → Among p (read use_compressed_oops (concat (scan_code_cache capacity false r).0)))
      × ((nm : ℕ) (places : List Place) (p : Place)
          → fresh nm events none ≡ some places
          → Among p places
          → Among p (read use_compressed_oops (concat (scan_code_cache capacity true r).0)))
scan-registered use_compressed_oops capacity events proper =
    let (r, done, k) =
      run-Keeps use_compressed_oops capacity events no_code (λ _. none) (λ _. none) proper
        (record { nothing_cached = refl; all_held = λ j. tt; young_held = λ j. tt }) in
    (
      r,
      done,
      (λ nm places p e m. rw (scan-gathered capacity false r) (
          held-Among use_compressed_oops nm r places p
            (subst (Matches use_compressed_oops _) e (k.all_held nm)) m)),
      (λ nm places p e m. rw (scan-gathered capacity true r) (
          Matches-Among use_compressed_oops nm r.nursery (lookup nm r.nursery) places p refl
            (subst (Matches use_compressed_oops _) e (k.young_held nm)) m)),
    )
