-- ===== src/Barriers/Remembered.antt =====
-- What the object barrier is for: every object of the old generation that is written is remembered.
use mmtk_openjdk.Base.{
  ℕ, ◌≡◌, ◌⊎◌, inl, inr, Bool, true, false, List, [], ◌∷◌, ◌==◌, if◌then◌else◌, add64, arith, has,
  Bool-cases, map, ==_iff,
}
use mmtk_openjdk.Barriers.Metadata.{is_unlogged, IsAddress}
use mmtk_openjdk.Barriers.Runtime.{write_post, write_slow, object_barrier, Settings}
use mmtk_openjdk.Barriers.Writes.{Write, store, cmpxchg, xchg, object_of, do_write, do_writes}
use mmtk_openjdk.Barriers.Access.{Core, Machine, put, perform, after}

-- What the barrier relies on in mmtk-core's object barrier: the slow call for an unlogged object
-- remembers it and sets it logged, and touches nothing else; the full post-barrier checks the unlog
-- bit itself, and makes the slow call; what is remembered stays so.
pub record ObjectCore (base : ℕ) (core : Core) : Type 0 where
  pub remembered : core.State → ℕ → Bool
  pub slow_remembers :
      (src slot target : ℕ) (f u : ℕ → ℕ) (st : core.State)
      → is_unlogged base u src ≡ true
      → remembered (core.handle (write_slow src slot target) f u st).0 src ≡ true
  pub slow_keeps :
      (src slot target obj : ℕ) (f u : ℕ → ℕ) (st : core.State)
      → remembered st obj ≡ true
      → remembered (core.handle (write_slow src slot target) f u st).0 obj ≡ true
  pub slow_logs_only :
      (src slot target obj : ℕ) (f u : ℕ → ℕ) (st : core.State)
      → IsAddress obj
      → IsAddress src
      → is_unlogged base (core.handle (write_slow src slot target) f u st).1 obj
        ≡ (if obj == src then false else is_unlogged base u obj)
  pub post_unlogged :
      (src slot target : ℕ) (f u : ℕ → ℕ) (st : core.State)
      → is_unlogged base u src ≡ true
      → core.handle (write_post src slot target) f u st
        ≡ core.handle (write_slow src slot target) f u st
  pub post_logged :
      (src slot target : ℕ) (f u : ℕ → ℕ) (st : core.State)
      → is_unlogged base u src ≡ false
      → core.handle (write_post src slot target) f u st ≡ (st, u)

module _ (s : Settings) (core : Core) (object : ObjectCore s.metadata_base core) where
  open object use {
    remembered, slow_remembers, slow_keeps, slow_logs_only, post_unlogged, post_logged,
  }

  -- `u₀` was the metadata at the start: an object that was unlogged is so still, or is remembered.
  abbrev Noted : (u₀ : ℕ → ℕ) → Machine core → ℕ → Type 0
  Noted u₀ m obj =
      (is_unlogged s.metadata_base m.metadata obj ≡ true) ⊎ (remembered m.state obj ≡ true)

  abbrev AllNoted : (u₀ : ℕ → ℕ) → Machine core → Type 0
  AllNoted u₀ m =
      (obj : ℕ) → IsAddress obj → is_unlogged s.metadata_base u₀ obj ≡ true → Noted u₀ m obj

  -- Once logged, an aligned object stays so.
  abbrev StayLogged : Machine core → Machine core → Type 0
  StayLogged m m' =
      (obj : ℕ)
      → IsAddress obj
      → is_unlogged s.metadata_base m.metadata obj ≡ false
      → is_unlogged s.metadata_base m'.metadata obj ≡ false

  -- Behind the post-barrier the object is logged, and what was noted is so still.
  record Done (u₀ : ℕ → ℕ) (src : ℕ) (m m' : Machine core) : Type 0 where
    noted : AllNoted u₀ m'
    stay : StayLogged m m'
    logged : is_unlogged s.metadata_base m'.metadata src ≡ false

  slow-Done :
      (u₀ : ℕ → ℕ) (src slot target : ℕ) (m : Machine core)
      → IsAddress src
      → AllNoted u₀ m
      → is_unlogged s.metadata_base m.metadata src ≡ true
      → Done u₀ src m (perform core (write_slow src slot target) m)
  unfolding perform
  slow-Done u₀ src slot target m al noted u = record {
    noted = λ obj al' u'. ground (
      arith,
      noted obj al' u',
      slow_remembers src slot target m.fields m.metadata m.state,
      slow_keeps src slot target obj m.fields m.metadata m.state,
      slow_logs_only src slot target obj m.fields m.metadata m.state,
    );
    stay =
        λ obj al' l. ground (arith, slow_logs_only src slot target obj m.fields m.metadata m.state);
    logged = ground (arith, slow_logs_only src slot target src m.fields m.metadata m.state);
  }

  after-Done :
      (u₀ : ℕ → ℕ) (src slot target : ℕ) (m : Machine core)
      → IsAddress src
      → AllNoted u₀ m
      → Done u₀ src m (after core s object_barrier src slot target m)
  unfolding after
  after-Done u₀ src slot target m al noted =
      elim (Bool-cases (is_unlogged s.metadata_base m.metadata src)) [
        | inl u ↦
            let slow = slow-Done u₀ src slot target m al noted u in
            elim (Bool-cases s.barrier_fastpath) [
              | inl fast ↦ simp (fast, u) slow
              | inr full ↦
                  simp full (rw (post_unlogged src slot target m.fields m.metadata m.state u) slow)
            ]
        | inr l ↦
            let same : Done u₀ src m m = record {
              noted = noted;
              stay = λ obj al' l'. l';
              logged = l;
            } in
            elim (Bool-cases s.barrier_fastpath) [
              | inl fast ↦ simp (fast, l) same
              | inr full ↦
                  simp full (rw (post_logged src slot target m.fields m.metadata m.state l) same)
            ]
      ]

  do_write-Done :
      (u₀ : ℕ → ℕ) (w : Write) (m : Machine core)
      → IsAddress (object_of w)
      → AllNoted u₀ m
      → Done u₀ (object_of w) m (do_write core s object_barrier w m)
  unfolding do_write
  do_write-Done u₀ (store base offset value) m al noted =
      let slot = add64 base offset in
      let d = after-Done u₀ base slot value (put core slot value m) al noted in
      record { noted = d.noted; stay = d.stay; logged = d.logged }
  do_write-Done u₀ (cmpxchg base offset new_value compare_value) m al noted =
      let slot = add64 base offset in
      elim (Bool-cases (m.fields slot == compare_value)) [
        | inl e ↦
            let d = after-Done u₀ base slot new_value (put core slot new_value m) al noted in
            simp e (record { noted = d.noted; stay = d.stay; logged = d.logged })
        | inr e ↦ simp e (after-Done u₀ base slot new_value m al noted)
      ]
  do_write-Done u₀ (xchg base offset new_value) m al noted =
      let slot = add64 base offset in
      let d = after-Done u₀ base slot new_value (put core slot new_value m) al noted in
      record { noted = d.noted; stay = d.stay; logged = d.logged }

  abbrev AreAligned : List Write → Type 0
  AreAligned [] = Unit
  AreAligned (w ∷ rest) = IsAddress (object_of w) × AreAligned rest

  do_writes-Done :
      (u₀ : ℕ → ℕ) (writes : List Write) (m : Machine core)
      → AreAligned writes
      → AllNoted u₀ m
      → let m' = do_writes core s object_barrier writes m in
        AllNoted u₀ m'
        × StayLogged m m'
        × ((obj : ℕ)
            → has obj (map object_of writes) ≡ true
            → is_unlogged s.metadata_base m'.metadata obj ≡ false)
  unfolding do_writes
  do_writes-Done u₀ [] m aligned noted = (noted, λ obj al l. l, λ obj h. cc)
  do_writes-Done u₀ (w ∷ rest) m aligned noted =
      let d = do_write-Done u₀ w m aligned.0 noted in
      let (noted', stay', written') =
        do_writes-Done u₀ rest (do_write core s object_barrier w m) aligned.1 d.noted in
      (
        noted',
        λ obj al l. stay' obj al (d.stay obj al l),
        λ obj h. elim (Bool-cases (obj == object_of w)) [
          | inl e ↦
              let same : obj ≡ object_of w = (==_iff obj (object_of w)).0 e in
              rw same (stay' (object_of w) aligned.0 d.logged)
          | inr ne ↦ written' obj (ground arith)
        ],
      )

  -- With an mmtk-core whose object barrier keeps its contract, the fast path on or off: after any
  -- stores, compare-exchanges and exchanges of oops into aligned objects through the access barrier,
  -- each object that was written and was unlogged at the start is logged and remembered.
  written_remembered :
      (writes : List Write) (m : Machine core) (obj : ℕ)
      → AreAligned writes
      → IsAddress obj
      → has obj (map object_of writes) ≡ true
      → is_unlogged s.metadata_base m.metadata obj ≡ true
      → let m' = do_writes core s object_barrier writes m in
        (is_unlogged s.metadata_base m'.metadata obj ≡ false) × (remembered m'.state obj ≡ true)
  written_remembered writes m obj aligned al h u =
      let (noted, stay, written) =
        do_writes-Done m.metadata writes m aligned (λ obj' al' u'. inl u') in
      (written obj h, ground (arith, noted obj al u, written obj h))
