-- ===== src/Options/Priority.antt =====
-- Which source of an option wins.
use mmtk_openjdk.Base.{ℕ, ◌≡◌, refl, Bool, true, false, Option, none, some, if◌then◌else◌, arith}
use mmtk_openjdk.Options.{Flag, Flags, Builder, set_mmtk_options, initialize_options}

-- What mmtk-core does with the environment: it sets an option that has a variable, and no other.
pub record EnvSettings (read : Builder → Builder) : Type 0 where
  pub threads : Option ℕ
  pub transparent_hugepages : Option Bool
  pub threads_set : (b : Builder) (v : ℕ) → threads ≡ some v → (read b).threads ≡ v
  pub threads_unset : (b : Builder) → threads ≡ none → (read b).threads ≡ b.threads
  pub hugepages_set :
      (b : Builder) (v : Bool) → transparent_hugepages ≡ some v → (read b).transparent_hugepages ≡ v
  pub hugepages_unset :
      (b : Builder)
      → transparent_hugepages ≡ none
      → (read b).transparent_hugepages ≡ b.transparent_hugepages

-- The highest source: the flag if it was set, then the environment, then the flag's default.
abbrev pub by_priority {ℓ} : {A : Type ℓ} → Flag A → Option A → A
by_priority f (some v) = if f.is_default then v else f.value
by_priority f none = f.value

threads_lem :
    (f : Flags) (read : Builder → Builder) (env : EnvSettings read) (b : Builder)
    → (v : Option ℕ) → env.threads ≡ v
    → (set_mmtk_options false f (read (set_mmtk_options true f b))).threads
      ≡ by_priority f.parallel_gc_threads v
unfolding set_mmtk_options
threads_lem f read env b none e = ground (arith, env.threads_unset (set_mmtk_options true f b) e)
threads_lem f read env b (some v) e =
    ground (arith, env.threads_set (set_mmtk_options true f b) v e)

hugepages_lem :
    (f : Flags) (read : Builder → Builder) (env : EnvSettings read) (b : Builder)
    → (v : Option Bool) → env.transparent_hugepages ≡ v
    → (set_mmtk_options false f (read (set_mmtk_options true f b))).transparent_hugepages
      ≡ by_priority f.use_transparent_huge_pages v
unfolding set_mmtk_options
hugepages_lem f read env b none e =
    ground (arith, env.hugepages_unset (set_mmtk_options true f b) e)
hugepages_lem f read env b (some v) e =
    ground (arith, env.hugepages_set (set_mmtk_options true f b) v e)

-- Where mmtk-core's reading of the environment sets the options that have a variable and no other, and
-- no `ThirdPartyHeapOptions` are given: whatever the builder held, each option that the VM passes on
-- comes from the command line if it is set there, else from the environment, else from the VM's default.
pub initialize_options-by_priority :
    (f : Flags) (read : Builder → Builder) (env : EnvSettings read) (b : Builder)
    → (b' : Builder) × (initialize_options f read none b ≡ some b')
      × (b'.threads ≡ by_priority f.parallel_gc_threads env.threads)
      × (b'.transparent_hugepages
          ≡ by_priority f.use_transparent_huge_pages env.transparent_hugepages)
unfolding initialize_options
initialize_options-by_priority f read env b = (
  _,
  refl,
  threads_lem f read env b env.threads refl,
  hugepages_lem f read env b env.transparent_hugepages refl,
)
