-- ===== src/Tests/Options.antt =====
-- Threads from the environment, huge pages from the command line.
use mmtk_openjdk.Base.{◌≡◌, refl, true, false, none, some, arith}
use mmtk_openjdk.Options.{Flags, Builder, initialize_options}
use mmtk_openjdk.Options.Priority.{EnvSettings, by_priority, initialize_options-by_priority}

abbrev flags : Flags
flags = record {
  parallel_gc_threads = record { value = 8; is_default = true };
  use_transparent_huge_pages = record { value = true; is_default = false };
}

abbrev read : Builder → Builder
read b = record b { threads = 4 }

abbrev read-EnvSettings : EnvSettings read
read-EnvSettings = record {
  threads = some 4;
  transparent_hugepages = none;
  threads_set = λ b v e. ground arith;
  threads_unset = λ b e. ground arith;
  hugepages_set = λ b v e. ground arith;
  hugepages_unset = λ b e. refl;
}

abbrev before : Builder
before = record { threads = 1; transparent_hugepages = false }

initialize_options-by_priority_example :
    (b' : Builder) × (initialize_options flags read none before ≡ some b')
    × (b'.threads ≡ by_priority flags.parallel_gc_threads (some 4))
    × (b'.transparent_hugepages ≡ by_priority flags.use_transparent_huge_pages none)
initialize_options-by_priority_example =
    initialize_options-by_priority flags read read-EnvSettings before
