-- ===== src/Threads/Kinds.antt =====
-- mmtk-core can tell mutators from its own threads, and finds all of the mutators.
use mmtk_openjdk.Base.{
  ℕ, ◌+◌, ◌≡◌, ◌≢◌, refl, subst, inl, inr, Bool, true, false, ◌||◌, List, [], ◌∷◌, ◌++◌, map,
  length, has, ◌==◌, arith, length-append, Bool-cases,
}
use mmtk_openjdk.Alloc.Layout.{free_list_allocator, size_of}
use mmtk_openjdk.Threads.{
  Threads, Outcome, goes_on, guarantee_failed, out_of_system_memory, remove, is_mutator,
  get_mmtk_mutator, get_mutators, number_of_mutators, Event, enter, leave, spawn, oom, and_then,
  step, run, no_threads, gc_thread_kind_worker,
}

has-append_one : (a x : ℕ) (xs : List ℕ) → has a (xs ++ x ∷ []) ≡ (has a xs || (a == x))
has-append_one a x [] = ground arith
has-append_one a x (y ∷ ys) = ground (arith, has-append_one a x ys)

has-remove : (a x : ℕ) (xs : List ℕ) → has a xs ≡ false → has a (remove x xs) ≡ false
has-remove a x [] e = refl
has-remove a x (y ∷ ys) e = ground (arith, has-remove a x ys)

has-of_remove : (a x : ℕ) (xs : List ℕ) → has a (remove x xs) ≡ true → has a xs ≡ true
has-of_remove a x xs e = ground (arith, has-remove a x xs)

-- A thread gets an address that is not NULL and at which no other thread lives, and mmtk-core gives a
-- context that is not NULL.
abbrev pub IsNew : ℕ → Threads → Type 0
IsNew thread s =
    (thread ≢ 0) × (has thread s.java_threads ≡ false) × (has thread s.collector_threads ≡ false)

abbrev pub IsAllowed : Event → Threads → Type 0
IsAllowed (enter thread) s = IsNew thread s
IsAllowed (leave thread) s = Unit
IsAllowed (spawn kind context thread creates) s = IsNew thread s × (context ≢ 0)
IsAllowed (oom e) s = Unit

abbrev pub AllowedAfter : Outcome → (Threads → Type 0) → Type 0
AllowedAfter (goes_on s) P = P s
AllowedAfter guarantee_failed P = Unit
AllowedAfter out_of_system_memory P = Unit

abbrev pub AreAllowed : ℕ → List Event → Threads → Type 0
AreAllowed size [] s = Unit
AreAllowed size (e ∷ rest) s = IsAllowed e s × AllowedAfter (step size e s) (AreAllowed size rest)

pub record KnowsKinds (s : Threads) : Type 0 where
  pub java : (t : ℕ) → has t s.java_threads ≡ true → is_mutator t s ≡ true
  pub collectors : (t : ℕ) → has t s.collector_threads ≡ true → is_mutator t s ≡ false
  pub workers : s.n_workers ≡ length s.collector_threads

abbrev KnowsAfter : Outcome → Type 0
KnowsAfter (goes_on s) = KnowsKinds s
KnowsAfter guarantee_failed = Unit
KnowsAfter out_of_system_memory = Unit

enter-KnowsAfter :
    (size thread : ℕ) (s : Threads)
    → IsNew thread s
    → KnowsKinds s
    → KnowsAfter (step size (enter thread) s)
unfolding step is_mutator
enter-KnowsAfter size thread s new k = elim (Bool-cases (size == size_of free_list_allocator)) [
  | inl e ↦ simp e (record {
    java = λ t h. ground (arith, has-append_one t thread s.java_threads, k.java t);
    collectors = λ t h. ground (arith, k.collectors t);
    workers = k.workers;
  })
  | inr e ↦ simp e tt
]

spawn-KnowsAfter :
    (size kind context thread : ℕ) (creates : Bool) (s : Threads)
    → IsNew thread s
    → context ≢ 0
    → KnowsKinds s
    → KnowsAfter (step size (spawn kind context thread creates) s)
unfolding step is_mutator
spawn-KnowsAfter size kind context thread false s new given k = ground arith
spawn-KnowsAfter size kind context thread true s new given k =
    elim (Bool-cases (kind == gc_thread_kind_worker)) [
      | inl e ↦ simp e (record {
        java = λ t h. ground (arith, k.java t);
        collectors =
            λ t h. ground (arith, has-append_one t thread s.collector_threads, k.collectors t);
        workers = omega (arith, length-append s.collector_threads (thread ∷ []), k.workers);
      })
      | inr e ↦ simp e tt
    ]

step-KnowsAfter :
    (size : ℕ) (e : Event) (s : Threads) → IsAllowed e s → KnowsKinds s → KnowsAfter (step size e s)
unfolding step is_mutator
step-KnowsAfter size (enter thread) s new k = enter-KnowsAfter size thread s new k
step-KnowsAfter size (leave thread) s new k = record {
  java = λ t h. k.java t (has-of_remove t thread s.java_threads h);
  collectors = k.collectors;
  workers = k.workers;
}
step-KnowsAfter size (spawn kind context thread creates) s (new, given) k =
    spawn-KnowsAfter size kind context thread creates s new given k
step-KnowsAfter size (oom e) s new k = ground arith

and_then-KnowsAfter :
    (o : Outcome) (k : Threads → Outcome) (P : Threads → Type 0)
    → KnowsAfter o
    → AllowedAfter o P
    → ((s : Threads) → P s → KnowsKinds s → KnowsAfter (k s))
    → KnowsAfter (and_then o k)
and_then-KnowsAfter (goes_on s) k P h p next = next s p h
and_then-KnowsAfter guarantee_failed k P h p next = tt
and_then-KnowsAfter out_of_system_memory k P h p next = tt

run-KnowsAfter :
    (size : ℕ) (events : List Event) (s : Threads)
    → AreAllowed size events s
    → KnowsKinds s
    → KnowsAfter (run size events s)
unfolding run
run-KnowsAfter size [] s allowed k = k
run-KnowsAfter size (e ∷ rest) s (allowed, after) k =
    and_then-KnowsAfter (step size e s) (run size rest) (AreAllowed size rest)
      (step-KnowsAfter size e s allowed k) after (λ s' p k'. run-KnowsAfter size rest s' p k')

has-map : (offset t : ℕ) (xs : List ℕ) → has (t + offset) (map (λ x. x + offset) xs) ≡ has t xs
has-map offset t [] = refl
has-map offset t (x ∷ xs) = ground (arith, has-map offset t xs)

length-map : (offset : ℕ) (xs : List ℕ) → length (map (λ x. x + offset) xs) ≡ length xs
length-map offset [] = refl
length-map offset (x ∷ xs) = omega (arith, length-map offset xs)

-- Where threads get addresses of their own that are not NULL and collector threads a context that is not
-- NULL: in whatever order Java threads come and go and collector threads are spawned, as long as nothing
-- fails, `mmtk_is_mutator` holds of every Java thread and of no collector thread, `_n_workers` counts the
-- collector threads, and the closure of `mmtk_get_mutators` and `mmtk_stop_all_mutators` gets the mutator
-- of every Java thread, of no other, and as many as `mmtk_number_of_mutators` says.
pub run-KnowsKinds :
    (size offset : ℕ) (events : List Event) (s : Threads)
    → AreAllowed size events no_threads
    → run size events no_threads ≡ goes_on s
    → KnowsKinds s
      × ((t : ℕ) → has (get_mmtk_mutator offset t) (get_mutators offset s) ≡ has t s.java_threads)
      × (length (get_mutators offset s) ≡ number_of_mutators s)
unfolding get_mutators number_of_mutators
run-KnowsKinds size offset events s allowed ends = (
  subst KnowsAfter ends (run-KnowsAfter size events no_threads allowed (ground arith)),
  (λ t. has-map offset t s.java_threads),
  length-map offset s.java_threads,
)
