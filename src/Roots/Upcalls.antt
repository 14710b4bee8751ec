-- ===== src/Roots/Upcalls.antt =====
-- Which roots a GC scans: the upcalls `mmtk_scan_*_roots` (openjdk/mmtkUpcalls.cpp) and the methods of
-- `MMTkHeap` behind them (openjdk/mmtkHeap.cpp), as mmtk/src/scanning.rs and mmtk/src/gc_work.rs call
-- them, against `MMTkHeap::scan_roots`, which scans all roots of the VM by itself. What the VM's
-- iterators visit is a parameter.
use mmtk_openjdk.Base.{
  ℕ, ◌<◌, ◌≡◌, ◌≢◌, refl, subst, sym, ◌⊎◌, inl, inr, Bool, true, false, none, some, List, [], ◌∷◌,
  ◌++◌, if◌then◌else◌, arith,
}
use mmtk_openjdk.Slots.{Place}
use mmtk_openjdk.Roots.{NewBuffer, Closure, Result, ok, and_then, construct, do_oops, destroy, scan}
use mmtk_openjdk.Roots.Scan.{delivered, roots_in, AreProper, read, scan-roots}
use mmtk_openjdk.CodeCache.{CodeRoots, Event, no_code, run, scan_code_cache}
use mmtk_openjdk.CodeCache.Scan.{Among, concat}
use mmtk_openjdk.CodeCache.Registered.{HasProper, registered, scan-registered}
use mmtk_openjdk.CodeCache.Registered

-- What OpenJDK's iterators go through: the roots of the VM's subsystems; the code cache, with the blobs marked as
-- visited or not; the threads, by themselves or with the nmethods in their frames; and one mutator.
pub data Source : Type 0 where
  universe jni_handles object_synchronizer management jvmti_export aot_loader : Source
  system_dictionary code_cache marking_code_cache string_table : Source
  class_loader_data_graph weak_processor vm_thread threads threads_and_code : Source
  mutator : (tls : ℕ) → Source

-- The upcalls `mmtk_scan_*`.
pub data Upcall : Type 0 where
  scan_universe_roots scan_jni_handle_roots scan_object_synchronizer_roots : Upcall
  scan_management_roots scan_jvmti_export_roots scan_aot_loader_roots : Upcall
  scan_system_dictionary_roots scan_code_cache_roots scan_string_table_roots : Upcall
  scan_class_loader_data_graph_roots scan_weak_processor_roots scan_vm_thread_roots : Upcall
  scan_roots_in_all_mutator_threads : Upcall
  scan_roots_in_mutator_thread : (tls : ℕ) → Upcall

-- What the method of `MMTkHeap` behind an upcall hands its closure to; for one mutator it is the thread itself.
unfoldable pub source_of : Upcall → Source
source_of scan_universe_roots = universe
source_of scan_jni_handle_roots = jni_handles
source_of scan_object_synchronizer_roots = object_synchronizer
source_of scan_management_roots = management
source_of scan_jvmti_export_roots = jvmti_export
source_of scan_aot_loader_roots = aot_loader
source_of scan_system_dictionary_roots = system_dictionary
source_of scan_code_cache_roots = marking_code_cache
source_of scan_string_table_roots = string_table
source_of scan_class_loader_data_graph_roots = class_loader_data_graph
source_of scan_weak_processor_roots = weak_processor
source_of scan_vm_thread_roots = vm_thread
source_of scan_roots_in_all_mutator_threads = threads
source_of (scan_roots_in_mutator_thread tls) = mutator tls

-- The packets of `scan_vm_specific_roots` that make an upcall: all but that for the code cache.
abbrev pub packets : List Upcall
packets =
    scan_universe_roots ∷ scan_jni_handle_roots ∷ scan_object_synchronizer_roots
    ∷ scan_management_roots ∷ scan_jvmti_export_roots ∷ scan_aot_loader_roots
    ∷ scan_system_dictionary_roots ∷ scan_string_table_roots ∷ scan_class_loader_data_graph_roots
    ∷ scan_weak_processor_roots ∷ scan_vm_thread_roots ∷ []

-- What `MMTkHeap::scan_roots` goes through, in order.
unfoldable pub scan_roots_sources : (use_aot : Bool) → List Source
scan_roots_sources use_aot =
    class_loader_data_graph
      ∷ threads_and_code
      ∷ universe
      ∷ jni_handles
      ∷ object_synchronizer
      ∷ management
      ∷ jvmti_export
      ∷ (if use_aot then aot_loader ∷ [] else [])
    ++ system_dictionary ∷ code_cache ∷ string_table ∷ weak_processor ∷ []

-- The sources that `scan_roots` has nothing to do with.
abbrev IsListed : Source → Type 0
IsListed (mutator tls) = ⊥
IsListed threads = ⊥
IsListed marking_code_cache = ⊥
IsListed _ = Unit

-- The parameters of `Roots`, and the places that each iterator visits.
module _ (new_buffer : Source → ℕ → NewBuffer) (use_compressed_oops : Bool) (oop_at : Place → ℕ)
    (oops_do : Source → List Place) where
  -- The methods `MMTkHeap::scan_*_roots`
  unfoldable pub scan_source : Source → Closure → Result
  scan_source s = do_oops (new_buffer s) use_compressed_oops oop_at (oops_do s)

  -- An upcall: a closure, the scan, and the closure's end.
  unfoldable pub mmtk_scan_roots : Upcall → Result
  unfolding scan_source source_of
  mmtk_scan_roots u =
      let s = source_of u in
      and_then (scan_source s (construct (new_buffer s) use_compressed_oops oop_at))
        (λ c. ok (destroy (new_buffer s) use_compressed_oops oop_at c))

  -- An upcall does what the closure does on the places of its iterator.
  mmtk_scan_roots-scan :
      (u : Upcall)
      → mmtk_scan_roots u
        ≡ scan (new_buffer (source_of u)) use_compressed_oops oop_at (oops_do (source_of u))
  unfolding mmtk_scan_roots scan
  mmtk_scan_roots-scan u = refl

  abbrev pub places_of : Source → List ℕ → List Place
  places_of s = read (new_buffer s) use_compressed_oops oop_at

  -- The upcall goes through and delivers the place.
  abbrev pub DeliveredBy : Place → Upcall → Type 0
  DeliveredBy p u =
      (c : Closure) × (mmtk_scan_roots u ≡ ok c)
      × Among p (places_of (source_of u) (delivered c.calls))

  abbrev pub roots_of : Source → List Place
  roots_of s = roots_in (new_buffer s) use_compressed_oops oop_at (oops_do s)

  mmtk_scan_roots-DeliveredBy :
      (p : Place) (u : Upcall)
      → ((k : ℕ) → 0 < (new_buffer (source_of u) k).cap)
      → ((k : ℕ) → (new_buffer (source_of u) k).buf ≢ 0)
      → AreProper (new_buffer (source_of u)) use_compressed_oops oop_at (oops_do (source_of u))
      → Among p (roots_of (source_of u))
      → DeliveredBy p u
  mmtk_scan_roots-DeliveredBy p u positive buffers proper m =
      let s = source_of u in
      let (c, done, places, _, _) =
        scan-roots (new_buffer s) use_compressed_oops oop_at (oops_do s) positive buffers proper in
      (c, rw (mmtk_scan_roots-scan u) done, subst (Among p) (sym places) m)

  -- A GC that scans the mutators, makes the packets, and scans the tables of code roots finds it.
  abbrev pub Found : ℕ → List ℕ → CodeRoots → Place → Type 0
  Found capacity mutators r p =
      ((u : Upcall) × Among u packets × DeliveredBy p u)
      ⊎ (((tls : ℕ) × Among tls mutators × DeliveredBy p (scan_roots_in_mutator_thread tls))
          ⊎ Among p
              (Registered.read use_compressed_oops (concat (scan_code_cache capacity false r).0)))

  -- What the collector and OpenJDK guarantee.
  pub record Contract (use_aot : Bool) (mutators : List ℕ) (events : List Event) : Type 0 where
    pub positive : (s : Source) (k : ℕ) → 0 < (new_buffer s k).cap
    pub buffers : (s : Source) (k : ℕ) → (new_buffer s k).buf ≢ 0
    pub proper : (s : Source) → AreProper (new_buffer s) use_compressed_oops oop_at (oops_do s)
    -- All threads have the roots of the mutators and of the VM thread, and their frames nmethods of the code cache.
    pub threads :
        (p : Place)
        → Among p (roots_of threads_and_code)
        → Among p (roots_of vm_thread)
          ⊎ (((tls : ℕ) × Among tls mutators × Among p (roots_of (mutator tls)))
              ⊎ Among p (roots_of code_cache))
    -- Each root in the code cache is in an nmethod that has been registered with the heap.
    pub code :
        (p : Place)
        → Among p (roots_of code_cache)
        → (nm : ℕ) × (places : List Place) × (registered nm events none ≡ some places)
          × Among p places
    pub events_proper : HasProper use_compressed_oops events

  module _ (use_aot : Bool) (capacity : ℕ) (mutators : List ℕ) (events : List Event)
      (k : Contract use_aot mutators events) where
    by_packet :
        (r : CodeRoots) (p : Place) (u : Upcall)
        → Among u packets
        → Among p (roots_of (source_of u))
        → Found capacity mutators r p
    by_packet r p u listed m =
        let s = source_of u in
        inl (u, listed, mmtk_scan_roots-DeliveredBy p u (k.positive s) (k.buffers s) (k.proper s) m)

    by_mutator :
        (r : CodeRoots) (p : Place) (tls : ℕ)
        → Among tls mutators
        → Among p (roots_of (mutator tls))
        → Found capacity mutators r p
    unfolding source_of
    by_mutator r p tls listed m =
        let s : Source = mutator tls in
        inr (
          inl (
            tls,
            listed,
            mmtk_scan_roots-DeliveredBy p (scan_roots_in_mutator_thread tls) (k.positive s)
                (k.buffers s) (k.proper s) m,
          ))

    -- Where the buffers received are not `NULL` and have room, all places reported are proper, the roots of all
    -- threads with the code in their frames are those of the mutators, the VM thread and the code cache, and each
    -- root in the code cache belongs to an nmethod that was registered: in a full GC the scans of the mutators, the
    -- packets of the other roots and the tables of code roots together deliver every place with an oop that
    -- `MMTkHeap::scan_roots` goes through, and the scan that delivers it fails no guarantee.
    pub gc_scans_roots :
        (r : CodeRoots) × (run use_compressed_oops capacity events no_code ≡ some r)
        × ((s : Source) (p : Place)
            → Among s (scan_roots_sources use_aot)
            → Among p (roots_of s)
            → Found capacity mutators r p)
    unfolding scan_roots_sources source_of
    gc_scans_roots =
        let (r, done, full, _) =
          scan-registered use_compressed_oops capacity events k.events_proper in
        (r, done, by_source r full)
      where
        not_listed : (s : Source) (b : Bool) → Among s (scan_roots_sources b) → IsListed s
        not_listed s true h = ground arith
        not_listed s false h = ground arith

        by_code :
            (r : CodeRoots)
            → ((nm : ℕ) (places : List Place) (p : Place)
                → registered nm events none ≡ some places
                → Among p places
                → Among p (
                    Registered.read use_compressed_oops
                      (concat (scan_code_cache capacity false r).0)))
            → (p : Place) → Among p (roots_of code_cache)
            → Found capacity mutators r p
        by_code r full p m =
            let (nm, places, e, among) = k.code p m in inr (inr (full nm places p e among))

        by_source :
            (r : CodeRoots)
            → ((nm : ℕ) (places : List Place) (p : Place)
                → registered nm events none ≡ some places
                → Among p places
                → Among p (
                    Registered.read use_compressed_oops
                      (concat (scan_code_cache capacity false r).0)))
            → (s : Source) (p : Place) → Among s (scan_roots_sources use_aot)
            → Among p (roots_of s)
            → Found capacity mutators r p
        by_source r full threads_and_code p listed m = elim (k.threads p m) [
          | inl vm ↦ by_packet r p scan_vm_thread_roots (ground arith) vm
          | inr (inl (tls, known, own)) ↦ by_mutator r p tls known own
          | inr (inr code) ↦ by_code r full p code
        ]
        by_source r full code_cache p listed m = by_code r full p m
        by_source r full universe p listed m = by_packet r p scan_universe_roots (ground arith) m
        by_source r full jni_handles p listed m =
            by_packet r p scan_jni_handle_roots (ground arith) m
        by_source r full object_synchronizer p listed m =
            by_packet r p scan_object_synchronizer_roots (ground arith) m
        by_source r full management p listed m =
            by_packet r p scan_management_roots (ground arith) m
        by_source r full jvmti_export p listed m =
            by_packet r p scan_jvmti_export_roots (ground arith) m
        by_source r full aot_loader p listed m =
            by_packet r p scan_aot_loader_roots (ground arith) m
        by_source r full system_dictionary p listed m =
            by_packet r p scan_system_dictionary_roots (ground arith) m
        by_source r full string_table p listed m =
            by_packet r p scan_string_table_roots (ground arith) m
        by_source r full class_loader_data_graph p listed m =
            by_packet r p scan_class_loader_data_graph_roots (ground arith) m
        by_source r full weak_processor p listed m =
            by_packet r p scan_weak_processor_roots (ground arith) m
        by_source r full vm_thread p listed m = by_packet r p scan_vm_thread_roots (ground arith) m
        by_source r full s p listed m = absurd (not_listed s use_aot listed)
