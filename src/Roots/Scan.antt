-- ===== src/Roots/Scan.antt =====
-- What the collector gets from a scan: each root once, in order, and each of its buffers back once.
use mathlib.Core.List.{append_assoc, append-nil, map-append}
use mmtk_openjdk.Base.{
  ℕ, zero, suc, ◌+◌, ◌^◌, ◌≤◌, ◌<◌, ◌≡◌, ◌≢◌, refl, ap, Bool, true, false, List, [], ◌∷◌, ◌++◌, map,
  inl, inr, arith, length, length-append, ◌==◌, ltb, leb, Bool-cases, lt→ltb, ltb→lt,
}
use mmtk_openjdk.Slots.{Place, tag, place_of, place_of-tag}
use mmtk_openjdk.Roots.{
  NewBuffer, Call, deliver, release_buffer, Closure, ok, construct, flush, append_slot, do_oop,
  flush_if_full, release, destroy, do_oops, scan, append_tagged,
}

-- The slots that the collector has received, in order.
abbrev pub delivered : List Call → List ℕ
delivered [] = []
delivered (deliver b slots c ∷ rest) = slots ++ delivered rest
delivered (release_buffer b l c ∷ rest) = delivered rest

-- The buffers that the collector has got back, in order.
abbrev pub returned : List Call → List ℕ
returned [] = []
returned (deliver b slots c ∷ rest) = b ∷ returned rest
returned (release_buffer b l c ∷ rest) = b ∷ returned rest

-- No buffer goes back with more slots than it has room for, and none is delivered empty.
abbrev pub WithinCapacity : List Call → Type 0
WithinCapacity [] = Unit
WithinCapacity (deliver b slots c ∷ rest) =
    (0 < length slots) × (length slots ≤ c) × WithinCapacity rest
WithinCapacity (release_buffer b l c ∷ rest) = (l ≤ c) × WithinCapacity rest

delivered-append : (xs ys : List Call) → delivered (xs ++ ys) ≡ delivered xs ++ delivered ys
delivered-append [] ys = refl
delivered-append (deliver b s c ∷ xs) ys = simp (delivered-append xs ys, append_assoc)
delivered-append (release_buffer b l c ∷ xs) ys = delivered-append xs ys

returned-append : (xs ys : List Call) → returned (xs ++ ys) ≡ returned xs ++ returned ys
returned-append [] ys = refl
returned-append (deliver b s c ∷ xs) ys = ap (◌∷◌ b) (returned-append xs ys)
returned-append (release_buffer b l c ∷ xs) ys = ap (◌∷◌ b) (returned-append xs ys)

WithinCapacity-append :
    (xs ys : List Call) → WithinCapacity xs → WithinCapacity ys → WithinCapacity (xs ++ ys)
WithinCapacity-append [] ys h k = k
WithinCapacity-append (deliver b s c ∷ xs) ys h k = (h.0, h.1, WithinCapacity-append xs ys h.2 k)
WithinCapacity-append (release_buffer b l c ∷ xs) ys h k = (h.0, WithinCapacity-append xs ys h.1 k)

module _ (new_buffer : ℕ → NewBuffer) (use_compressed_oops : Bool) (oop_at : Place → ℕ) where
  -- The first `n` buffers received.
  abbrev pub received : ℕ → List ℕ
  received zero = []
  received (suc n) = received n ++ (new_buffer n).buf ∷ []

  -- The places that hold an oop, in order.
  abbrev pub roots_in : List Place → List Place
  roots_in [] = []
  roots_in (p ∷ rest) = elim (oop_at p == 0) [ true ↦ roots_in rest | false ↦ p ∷ roots_in rest ]

  -- Every place that holds an oop has an address below 2 ^ 63, and is narrow only with compressed
  -- oops.
  abbrev pub AreProper : List Place → Type 0
  AreProper [] = Unit
  AreProper (p ∷ rest) =
      (p.address < 2 ^ 63) × (p.narrow ≡ true → use_compressed_oops ≡ true) × AreProper rest

  -- The places for which the collector takes some slots.
  abbrev pub read : List ℕ → List Place
  read = map (place_of use_compressed_oops)

  -- With `seen` the roots so far: what is gathered, and which buffers have gone back.
  record Inv (c : Closure) (seen : List Place) : Type 0 where
    gathered : read (delivered c.calls ++ c.slots) ≡ seen
    fits : length c.slots ≤ c.buffer.cap
    newest :
        (k : ℕ) × (c.issued ≡ suc k) × (c.buffer ≡ new_buffer k) × (returned c.calls ≡ received k)
    within : WithinCapacity c.calls

  module _ (positive : (k : ℕ) → 0 < (new_buffer k).cap) where
    -- Between two calls of `do_oop` there is room for one more slot.
    record Open (c : Closure) (seen : List Place) : Type 0 where
      inv : Inv c seen
      room : length c.slots < c.buffer.cap

    construct-Open : Open (construct new_buffer use_compressed_oops oop_at) []
    unfolding construct
    construct-Open = record {
      inv = record {
        gathered = refl;
        fits = omega arith;
        newest = (0, refl, refl, refl);
        within = tt;
      };
      room = positive 0;
    }

    flush-Open :
        (c : Closure) (seen : List Place)
        → Inv c seen
        → 0 < length c.slots
        → Open (flush new_buffer use_compressed_oops oop_at c) seen
    unfolding flush
    flush-Open c seen inv some_left = rw (lt→ltb 0 (length c.slots) some_left) (record {
      inv = record {
        gathered = simp (delivered-append, append-nil) inv.gathered;
        fits = omega arith;
        newest = next_newest;
        within = WithinCapacity-append c.calls _ inv.within (some_left, inv.fits, tt);
      };
      room = positive c.issued;
    })
      where
        next_newest :
            (k : ℕ) × (c.issued + 1 ≡ suc k)
            × (new_buffer c.issued ≡ new_buffer k)
            × (returned (c.calls ++ deliver c.buffer.buf c.slots c.buffer.cap ∷ []) ≡ received k)
        next_newest =
            let (k, next, newest, back) = inv.newest in
            (c.issued, omega arith, refl, rw (returned-append c.calls, back, newest) (rw next refl))

    flush_if_full-Open :
        (c : Closure) (seen : List Place)
        → Inv c seen
        → 0 < length c.slots
        → Open (flush_if_full new_buffer use_compressed_oops oop_at c) seen
    unfolding flush_if_full
    flush_if_full-Open c seen inv some_left =
        elim (Bool-cases (leb c.buffer.cap (length c.slots))) [
          | inl full ↦ rw full (flush-Open c seen inv some_left)
          | inr more ↦ rw more (record { inv = inv; room = ground arith })
        ]

    append_slot-Open :
        (p : Place) (slot : ℕ) (c : Closure) (seen : List Place)
        → Open c seen
        → place_of use_compressed_oops slot ≡ p
        → (c' : Closure) × (append_slot new_buffer use_compressed_oops oop_at slot c ≡ ok c')
          × Open c' (seen ++ p ∷ [])
    unfolding append_slot
    append_slot-Open p slot c seen o e = (
      flush_if_full new_buffer use_compressed_oops oop_at c',
      rw (lt→ltb _ _ o.room),
      flush_if_full-Open c' (seen ++ p ∷ [])
          (record {
            gathered = rw (
              ← append_assoc (delivered c.calls) c.slots (slot ∷ []),
              map-append,
              o.inv.gathered,
              e,
            );
            fits = omega (arith, o.room, length-append c.slots (slot ∷ []));
            newest = o.inv.newest;
            within = o.inv.within;
          })
          (omega (arith, length-append c.slots (slot ∷ []))),
    )
      where
        c' : Closure
        c' = record c { slots = c.slots ++ slot ∷ [] }

    append_tagged-Open :
        (p : Place) (c : Closure) (seen : List Place)
        → Open c seen
        → p.address < 2 ^ 63
        → (p.narrow ≡ true → use_compressed_oops ≡ true)
        → (c' : Closure) × (append_tagged new_buffer use_compressed_oops oop_at
              (tag use_compressed_oops p)
              c
            ≡ ok c')
          × Open c' (seen ++ p ∷ [])
    unfolding append_tagged
    append_tagged-Open p c seen o low kind =
        let (slot, tagged, back) = place_of-tag use_compressed_oops p low kind in
        rw tagged (append_slot-Open p slot c seen o back)

    do_oops-Open :
        (places : List Place) (c : Closure) (seen : List Place)
        → Open c seen
        → AreProper places
        → (c' : Closure) × (do_oops new_buffer use_compressed_oops oop_at places c ≡ ok c')
          × Open c' (seen ++ roots_in places)
    unfolding do_oops do_oop
    do_oops-Open [] c seen o proper = (c, refl, rw append-nil o)
    do_oops-Open (p ∷ rest) c seen o proper = elim (Bool-cases (oop_at p == 0)) [
      | inl no_oop ↦ rw (no_oop, roots_in) (do_oops-Open rest c seen o proper.2)
      | inr oop ↦
          let (c', done, o') = append_tagged-Open p c seen o proper.0 proper.1 in
          let (c'', rest_done, o'') = do_oops-Open rest c' (seen ++ p ∷ []) o' proper.2 in
          (c'', rw (oop, done) rest_done, rw (oop, roots_in) (rw append_assoc at o''))
    ]

    -- A flush leaves no slot behind.
    flush-Inv :
        (c : Closure) (seen : List Place)
        → Inv c seen
        → let c' = flush new_buffer use_compressed_oops oop_at c in Inv c' seen × (c'.slots ≡ [])
    unfolding flush
    flush-Inv c seen inv = elim (Bool-cases (ltb 0 (length c.slots))) [
      | inl e ↦ ((flush-Open c seen inv (ltb→lt 0 _ e)).inv, rw e)
      | inr e ↦ rw e (inv, eq_nil c.slots e)
    ]
      where
        eq_nil : (slots : List ℕ) → ltb 0 (length slots) ≡ false → slots ≡ []
        eq_nil [] e = refl
        eq_nil (x ∷ xs) e = ground arith

    release-Final :
        (c : Closure) (seen : List Place)
        → Inv c seen
        → c.slots ≡ []
        → c.buffer.buf ≢ 0
        → let c' = release new_buffer use_compressed_oops oop_at c in
          (read (delivered c'.calls) ≡ seen)
          × (returned c'.calls ≡ received c'.issued)
          × WithinCapacity c'.calls
    unfolding release
    release-Final c seen inv empty proper =
        let no_null : (c.buffer.buf == 0) ≡ false = ground arith in
        let (k, next, newest, back) = inv.newest in
        rw no_null (
          simp (delivered-append, append-nil) (rw (empty, append-nil) at inv.gathered),
          rw (returned-append c.calls, back, newest, next),
          WithinCapacity-append c.calls _ inv.within (rw empty (omega arith), tt),
        )

  -- Where every buffer received is not `NULL` and has room for a slot, and every place that the VM
  -- reports has an address below 2 ^ 63 and is narrow only with compressed oops: a scan writes
  -- nothing outside a buffer and fails no guarantee; the slots that are delivered stand, as
  -- `OpenJDKSlot` reads them, for the places that hold an oop, each once and in order; each buffer
  -- received goes back once, in order; and none goes back with more slots than it has room for.
  pub scan-roots :
      (places : List Place)
      → ((k : ℕ) → 0 < (new_buffer k).cap)
      → ((k : ℕ) → (new_buffer k).buf ≢ 0)
      → AreProper places
      → (c : Closure) × (scan new_buffer use_compressed_oops oop_at places ≡ ok c)
        × (read (delivered c.calls) ≡ roots_in places)
        × (returned c.calls ≡ received c.issued)
        × WithinCapacity c.calls
  unfolding scan destroy
  scan-roots places positive buffers proper =
      let (c, done, o) =
        do_oops-Open positive places (construct new_buffer use_compressed_oops oop_at) []
          (construct-Open positive) proper in
      let (inv, empty) = flush-Inv positive c (roots_in places) o.inv in
      let c' = flush new_buffer use_compressed_oops oop_at c in
      let (_, _, newest, _) = inv.newest in
      let (slots, back, within) =
        release-Final positive c' (roots_in places) inv empty (rw newest (buffers _)) in
      (release new_buffer use_compressed_oops oop_at c', rw done, slots, back, within)
