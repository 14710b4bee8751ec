-- ===== src/Compiled/Remembered/Writers.antt =====
-- The object barrier that the compilers emit, kept or dropped: openjdk/barriers/mmtkObjectBarrier.cpp and
-- `can_remove_barrier` of openjdk/mmtkBarrierSetC2.cpp.
use mmtk_openjdk.Base.{
  ℕ, ◌^◌, ◌<◌, ◌≡◌, refl, sym, subst, ◌⊎◌, inl, inr, Bool, true, false, ◌==◌, add64, arith,
  Bool-cases,
}
use mmtk_openjdk.Barriers.Runtime.{object_barrier, Settings}
use mmtk_openjdk.Barriers.Access.{Core, Machine, put, after, perform_all}
use mmtk_openjdk.Barriers.Writes.{Write, store, cmpxchg, xchg, object_of, slot_of}
use mmtk_openjdk.Barriers.Remembered.{ObjectCore}
use mmtk_openjdk.Compiled.Accesses.{Writer, runtime, compiled, write_by, SeesNew}
use mmtk_openjdk.Compiled.C2
use mmtk_openjdk.Compiled.C2.{Store, can_remove_barrier}
use mmtk_openjdk.Compiled.Calls.{c1_write_post-runtime, c2_write_post-runtime}
use mmtk_openjdk.Compiled.Stores.{Compiler, c1, c2, pre_of, post_of, pre, post, compiled_write}
use mmtk_openjdk.Compiled.Remembered.{
  RegionCore, AllHeld, IsNew, IsField, put-Held, after-Held, put-differs, do_write-Held,
}

-- The oop that is written.
abbrev pub value_of : Write → ℕ
value_of (store base offset value) = value
value_of (cmpxchg base offset new_value compare_value) = new_value
value_of (xchg base offset new_value) = new_value

can_remove_barrier-harmless :
    (fastpath : Bool) (st : Store)
    → can_remove_barrier fastpath true st ≡ true
    → (st.is_null ≡ true) ⊎ SeesNew st
unfolding can_remove_barrier
can_remove_barrier-harmless fastpath st e = ground arith

module _ (core : Core) (s : Settings) (fastpath : Bool) (st : Store) (src slot value : ℕ)
    (m : Machine core) where
  removed_post :
      can_remove_barrier fastpath true st ≡ true
      → post core (c2 fastpath st) s object_barrier src slot value m ≡ m
  unfolding post post_of C2.object_reference_write_post perform_all
  removed_post gone = rw gone

  kept_post :
      can_remove_barrier fastpath true st ≡ false
      → src < 2 ^ 63
      → post core (c2 fastpath st) s object_barrier src slot value m
        ≡ after core s object_barrier src slot value m
  unfolding post post_of after
  kept_post there small =
      rw (c2_write_post-runtime s fastpath st m.metadata src slot value there small)

c1_post :
    (core : Core) (p : Bool) (s : Settings) (src slot value : ℕ) (m : Machine core)
    → src < 2 ^ 63
    → post core (c1 p) s object_barrier src slot value m
      ≡ after core s object_barrier src slot value m
unfolding post post_of after
c1_post core p s src slot value m small =
    rw (c1_write_post-runtime s m.metadata src slot value small)

module _ (s : Settings) (core : Core) (object : ObjectCore s.metadata_base core)
    (region : RegionCore core object.remembered) (f₀ u₀ : ℕ → ℕ) where
  -- What a write relies on: a field of an aligned object, for compiled code below 2 ^ 63, that what the server
  -- compiler takes for null is null, and that what it takes for new was not unlogged at the start.
  abbrev pub IsSound : Writer → Write → Type 0
  IsSound runtime w = IsField s core object region f₀ u₀ w
  IsSound (compiled (c1 p)) w = IsField s core object region f₀ u₀ w × (object_of w < 2 ^ 63)
  IsSound (compiled (c2 fastpath st)) w =
      IsField s core object region f₀ u₀ w
      × (object_of w < 2 ^ 63)
      × (st.is_null ≡ true → value_of w ≡ 0)
      × (SeesNew st → IsNew s core object region f₀ u₀ (object_of w))

  IsSound-IsField :
      (k : Compiler) (w : Write) → IsSound (compiled k) w → IsField s core object region f₀ u₀ w
  IsSound-IsField (c1 p) w sound = sound.0
  IsSound-IsField (c2 fastpath st) w sound = sound.0

  -- The post-barrier is the runtime's, or is not needed.
  abbrev PostCases : Compiler → Write → Machine core → Type 0
  PostCases k w m =
      let done = post core k s object_barrier (object_of w) (slot_of w) (value_of w) m in
      (done ≡ after core s object_barrier (object_of w) (slot_of w) (value_of w) m)
      ⊎ ((done ≡ m) × ((value_of w ≡ 0) ⊎ IsNew s core object region f₀ u₀ (object_of w)))

  post_cases :
      (k : Compiler) (w : Write) (m : Machine core) → IsSound (compiled k) w → PostCases k w m
  post_cases (c1 p) w m sound =
      inl (c1_post core p s (object_of w) (slot_of w) (value_of w) m sound.1)
  post_cases (c2 fastpath st) w m (field, small, null, new) =
      elim (Bool-cases (can_remove_barrier fastpath true st)) [
        | inl gone ↦ inr (
          removed_post core s fastpath st (object_of w) (slot_of w) (value_of w) m gone,
          elim (can_remove_barrier-harmless fastpath st gone) [
            | inl is_null ↦ inl (null is_null)
            | inr is_new ↦ inr (new is_new)
          ],
        )
        | inr there ↦
            inl (kept_post core s fastpath st (object_of w) (slot_of w) (value_of w) m there small)
      ]

  pre-none :
      (k : Compiler) (src slot value : ℕ) (m : Machine core)
      → pre core k s object_barrier src slot value m ≡ m
  unfolding pre pre_of perform_all
  pre-none k src slot value m = ground arith

  -- The raw store and the compiled post-barrier.
  stored-Held :
      (k : Compiler) (w : Write) (m : Machine core)
      → IsSound (compiled k) w
      → AllHeld s core object region f₀ u₀ m
      → (AllHeld s core object region f₀ u₀) (
          post core k s object_barrier
            (object_of w)
            (slot_of w)
            (value_of w)
            (put core (slot_of w) (value_of w) m))
  stored-Held k w m sound held =
      let (al, field) = IsSound-IsField k w sound in
      elim (post_cases k w (put core (slot_of w) (value_of w) m) sound) [
        | inl same ↦ subst (AllHeld s core object region f₀ u₀) (sym same) (
            after-Held s core object region f₀ u₀ (object_of w) (slot_of w) (value_of w) m _ al
              field (put-differs s core object region f₀ u₀ (slot_of w) (value_of w) m) held)
        | inr (none, harmless) ↦ subst (AllHeld s core object region f₀ u₀) (sym none) (
            put-Held s core object region f₀ u₀ (object_of w) (slot_of w) (value_of w) m field
              harmless held)
      ]

  -- The compiled post-barrier where nothing was stored.
  failed-Held :
      (k : Compiler) (w : Write) (m : Machine core)
      → IsSound (compiled k) w
      → AllHeld s core object region f₀ u₀ m
      → (AllHeld s core object region f₀ u₀)
          (post core k s object_barrier (object_of w) (slot_of w) (value_of w) m)
  failed-Held k w m sound held =
      let (al, field) = IsSound-IsField k w sound in
      elim (post_cases k w m sound) [
        | inl same ↦ subst (AllHeld s core object region f₀ u₀) (sym same) (
            after-Held s core object region f₀ u₀ (object_of w) (slot_of w) (value_of w) m m.fields
              al field (λ a ne. refl) held)
        | inr (none, harmless) ↦ subst (AllHeld s core object region f₀ u₀) (sym none) held
      ]

  compiled_write-Held :
      (k : Compiler) (w : Write) (m : Machine core)
      → IsSound (compiled k) w
      → AllHeld s core object region f₀ u₀ m
      → (AllHeld s core object region f₀ u₀) (compiled_write core k s object_barrier w m)
  unfolding compiled_write
  compiled_write-Held k (store base offset value) m sound held =
      rw (pre-none k base (add64 base offset) value m)
        (stored-Held k (store base offset value) m sound held)
  compiled_write-Held k (cmpxchg base offset new_value compare_value) m sound held =
      rw (pre-none k base (add64 base offset) new_value m)
        (elim (Bool-cases (m.fields (add64 base offset) == compare_value)) [
          | inl e ↦
              simp e (stored-Held k (cmpxchg base offset new_value compare_value) m sound held)
          | inr e ↦
              simp e (failed-Held k (cmpxchg base offset new_value compare_value) m sound held)
        ])
  compiled_write-Held k (xchg base offset new_value) m sound held =
      rw (pre-none k base (add64 base offset) new_value m)
        (stored-Held k (xchg base offset new_value) m sound held)

  pub write_by-Held :
      (by : Writer) (w : Write) (m : Machine core)
      → IsSound by w
      → AllHeld s core object region f₀ u₀ m
      → AllHeld s core object region f₀ u₀ (write_by core s object_barrier by w m)
  unfolding write_by
  write_by-Held runtime w m sound held = do_write-Held s core object region f₀ u₀ w m sound held
  write_by-Held (compiled k) w m sound held = compiled_write-Held k w m sound held
