-- ===== src/Barriers/Snapshot.antt =====
-- What the SATB barrier is for: the collector sees the heap as it was when marking began.
use mmtk_openjdk.Base.{
  ℕ, ◌≡◌, refl, ◌⊎◌, inl, inr, Bool, true, false, List, [], ◌∷◌, ◌==◌, if◌then◌else◌, has, add64,
  arith, Bool-cases,
}
use mmtk_openjdk.Barriers.Metadata.{is_unlogged, IsAddress}
use mmtk_openjdk.Barriers.Runtime.{write_pre, write_slow, satb_barrier, Settings}
use mmtk_openjdk.Barriers.Writes.{
  Write, store, cmpxchg, xchg, object_of, slot_of, do_write, do_writes,
}
use mmtk_openjdk.Barriers.Access.{Core, Machine, put, perform, before}

-- What the barrier relies on in mmtk-core's SATB barrier: the slow call for an unlogged object
-- records the oops in all its slots and sets the object logged; the full pre-barrier checks the
-- unlog bit itself, and makes the slow call; what is recorded stays recorded.
pub record SatbCore (base : ℕ) (core : Core) : Type 0 where
  pub slots_of : ℕ → List ℕ
  pub recorded : core.State → ℕ → Bool
  pub slots_apart :
      (a b slot : ℕ) → has slot (slots_of a) ≡ true → has slot (slots_of b) ≡ true → a ≡ b
  pub slow_records :
      (src slot target a : ℕ) (f u : ℕ → ℕ) (st : core.State)
      → is_unlogged base u src ≡ true
      → has a (slots_of src) ≡ true
      → recorded (core.handle (write_slow src slot target) f u st).0 (f a) ≡ true
  pub slow_keeps :
      (src slot target v : ℕ) (f u : ℕ → ℕ) (st : core.State)
      → recorded st v ≡ true
      → recorded (core.handle (write_slow src slot target) f u st).0 v ≡ true
  pub slow_logs_only :
      (src slot target obj : ℕ) (f u : ℕ → ℕ) (st : core.State)
      → IsAddress obj
      → IsAddress src
      → is_unlogged base (core.handle (write_slow src slot target) f u st).1 obj
        ≡ (if obj == src then false else is_unlogged base u obj)
  pub pre_unlogged :
      (src slot target : ℕ) (f u : ℕ → ℕ) (st : core.State)
      → is_unlogged base u src ≡ true
      → core.handle (write_pre src slot target) f u st
        ≡ core.handle (write_slow src slot target) f u st
  pub pre_logged :
      (src slot target : ℕ) (f u : ℕ → ℕ) (st : core.State)
      → is_unlogged base u src ≡ false
      → core.handle (write_pre src slot target) f u st ≡ (st, u)

module _ (s : Settings) (core : Core) (satb : SatbCore s.metadata_base core) where
  open satb use {
    slots_of, recorded, slots_apart, slow_records, slow_keeps, slow_logs_only, pre_unlogged,
    pre_logged,
  }

  -- The object has a proper address, and the slot is one of its slots.
  abbrev pub IsProper : Write → Type 0
  IsProper w = IsAddress (object_of w) × (has (slot_of w) (slots_of (object_of w)) ≡ true)

  -- At the start `f₀` and `u₀` held: an object that was unlogged is so still and has its oops, or
  -- these are recorded.
  abbrev pub Kept : (f₀ u₀ : ℕ → ℕ) → Machine core → ℕ → ℕ → Type 0
  Kept f₀ u₀ m obj slot =
      ((is_unlogged s.metadata_base m.metadata obj ≡ true) × (m.fields slot ≡ f₀ slot))
      ⊎ (recorded m.state (f₀ slot) ≡ true)

  abbrev pub AllKept : (f₀ u₀ : ℕ → ℕ) → Machine core → Type 0
  AllKept f₀ u₀ m =
      (obj slot : ℕ)
      → IsAddress obj
      → has slot (slots_of obj) ≡ true
      → is_unlogged s.metadata_base u₀ obj ≡ true
      → Kept f₀ u₀ m obj slot

  -- Behind the pre-barrier the object is logged, and the fields are as before it.
  pub record Ready (f₀ u₀ : ℕ → ℕ) (src : ℕ) (m m' : Machine core) : Type 0 where
    pub kept : AllKept f₀ u₀ m'
    pub fields : m'.fields ≡ m.fields
    pub logged : is_unlogged s.metadata_base m'.metadata src ≡ false

  slow-Ready :
      (f₀ u₀ : ℕ → ℕ) (src slot target : ℕ) (m : Machine core)
      → IsAddress src
      → AllKept f₀ u₀ m
      → is_unlogged s.metadata_base m.metadata src ≡ true
      → Ready f₀ u₀ src m (perform core (write_slow src slot target) m)
  unfolding perform
  slow-Ready f₀ u₀ src slot target m al kept u = record {
    kept = λ obj a al' i u'. ground (
      arith,
      kept obj a al' i u',
      slow_records src slot target a m.fields m.metadata m.state,
      slow_keeps src slot target (f₀ a) m.fields m.metadata m.state,
      slow_logs_only src slot target obj m.fields m.metadata m.state,
    );
    fields = refl;
    logged = ground (arith, slow_logs_only src slot target src m.fields m.metadata m.state);
  }

  pub before-Ready :
      (f₀ u₀ : ℕ → ℕ) (src slot target : ℕ) (m : Machine core)
      → IsAddress src
      → AllKept f₀ u₀ m
      → Ready f₀ u₀ src m (before core s satb_barrier src slot target m)
  unfolding before
  before-Ready f₀ u₀ src slot target m al kept =
      elim (Bool-cases (is_unlogged s.metadata_base m.metadata src)) [
        | inl u ↦
            let slow = slow-Ready f₀ u₀ src slot target m al kept u in
            elim (Bool-cases s.barrier_fastpath) [
              | inl fast ↦ simp (fast, u) slow
              | inr full ↦
                  simp full (rw (pre_unlogged src slot target m.fields m.metadata m.state u) slow)
            ]
        | inr l ↦
            let same : Ready f₀ u₀ src m m = record { kept = kept; fields = refl; logged = l } in
            elim (Bool-cases s.barrier_fastpath) [
              | inl fast ↦ simp (fast, l) same
              | inr full ↦
                  simp full (rw (pre_logged src slot target m.fields m.metadata m.state l) same)
            ]
      ]

  -- The raw store into a slot of a logged object.
  put-Kept :
      (f₀ u₀ : ℕ → ℕ) (src slot value : ℕ) (m : Machine core)
      → has slot (slots_of src) ≡ true
      → is_unlogged s.metadata_base m.metadata src ≡ false
      → AllKept f₀ u₀ m
      → AllKept f₀ u₀ (put core slot value m)
  put-Kept f₀ u₀ src slot value m field logged kept obj a al i u =
      ground (arith, kept obj a al i u, slots_apart obj src a)

  pub do_write-Kept :
      (f₀ u₀ : ℕ → ℕ) (w : Write) (m : Machine core)
      → IsProper w
      → AllKept f₀ u₀ m
      → AllKept f₀ u₀ (do_write core s satb_barrier w m)
  unfolding do_write
  do_write-Kept f₀ u₀ (store base offset value) m (al, field) kept =
      let slot = add64 base offset in
      let r = before-Ready f₀ u₀ base slot value m al kept in
      put-Kept f₀ u₀ base slot value _ field r.logged r.kept
  do_write-Kept f₀ u₀ (cmpxchg base offset new_value compare_value) m (al, field) kept =
      let slot = add64 base offset in
      let r = before-Ready f₀ u₀ base slot new_value m al kept in
      let m' = before core s satb_barrier base slot new_value m in
      elim (Bool-cases (m'.fields slot == compare_value)) [
        | inl e ↦ simp e (put-Kept f₀ u₀ base slot new_value m' field r.logged r.kept)
        | inr e ↦ simp e r.kept
      ]
  do_write-Kept f₀ u₀ (xchg base offset new_value) m (al, field) kept =
      let slot = add64 base offset in
      let r = before-Ready f₀ u₀ base slot new_value m al kept in
      put-Kept f₀ u₀ base slot new_value _ field r.logged r.kept

  abbrev AreProper : List Write → Type 0
  AreProper [] = Unit
  AreProper (w ∷ rest) = IsProper w × AreProper rest

  do_writes-Kept :
      (f₀ u₀ : ℕ → ℕ) (writes : List Write) (m : Machine core)
      → AreProper writes
      → AllKept f₀ u₀ m
      → AllKept f₀ u₀ (do_writes core s satb_barrier writes m)
  unfolding do_writes
  do_writes-Kept f₀ u₀ [] m proper kept = kept
  do_writes-Kept f₀ u₀ (w ∷ rest) m proper kept =
      do_writes-Kept f₀ u₀ rest (do_write core s satb_barrier w m) proper.1
        (do_write-Kept f₀ u₀ w m proper.0 kept)

  -- With an mmtk-core whose SATB barrier keeps its contract, the fast path on or off: after any
  -- stores, compare-exchanges and exchanges of oops through the access barrier, each into a slot of an
  -- aligned object, the oop that a slot of an object unlogged at the start held then is either
  -- recorded, or still in the slot and its object unlogged. So no overwritten oop escapes the snapshot.
  snapshot_kept :
      (writes : List Write) (m : Machine core) (obj slot : ℕ)
      → AreProper writes
      → IsAddress obj
      → has slot (slots_of obj) ≡ true
      → is_unlogged s.metadata_base m.metadata obj ≡ true
      → let m' = do_writes core s satb_barrier writes m in
        ((is_unlogged s.metadata_base m'.metadata obj ≡ true) × (m'.fields slot ≡ m.fields slot))
        ⊎ (recorded m'.state (m.fields slot) ≡ true)
  snapshot_kept writes m obj slot proper al i u =
      do_writes-Kept m.fields m.metadata writes m proper (λ obj' slot' al' i' u'. inl (u', refl))
        obj slot al i u
