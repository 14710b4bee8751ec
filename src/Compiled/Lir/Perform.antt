-- ===== src/Compiled/Lir/Perform.antt =====
-- Emitted code, run: what a generator's code does, one generator after the other.
use mmtk_openjdk.Base.{ℕ, ◌≡◌, refl, ◌∙◌, ap, Bool, List, [], ◌∷◌, ◌++◌, Option, none, some}
use mmtk_openjdk.Barriers.Runtime.{Settings}
use mmtk_openjdk.X86.Cpu.{Cpu}
use mmtk_openjdk.Compiled.Lir.{Lir, branch_equal, jump, branch_destination, referent_check, run}
use mmtk_openjdk.Compiled.Lir.Emit.{Gen, prepend, continue, ◌>>=◌}

module _ (clobber : (ℕ → ℕ) → ℕ → ℕ) (s : Settings) (is_referent : Bool) where
  pub run-append :
      (a b : List Lir) (to : Option ℕ) (c : Cpu)
      → run clobber s is_referent (a ++ b) to c
        ≡ (let (to', c') = run clobber s is_referent a to c in run clobber s is_referent b to' c')
  unfolding run
  run-append [] b to c = refl
  run-append (branch_destination l ∷ a) b (some k) c = run-append a b _ c
  run-append (branch_destination l ∷ a) b none c = run-append a b none _
  run-append (branch_equal st ∷ a) b none c = run-append a b _ _
  run-append (jump st ∷ a) b none c = run-append a b _ _
  run-append (referent_check l ∷ a) b none c = run-append a b _ c
  run-append (i ∷ a) b (some k) c = run-append a b (some k) c
  run-append (i ∷ a) b none c = run-append a b none _

  -- A generator's result, with its code run behind what `st` has done.
  abbrev run_result {ℓ} :
      {A : Type ℓ} → Option (A × ℕ × List Lir) → Option ℕ × Cpu → Option (A × ℕ × (Option ℕ × Cpu))
  run_result none st = none
  run_result (some (a, next, code)) (to, c) = some (a, next, run clobber s is_referent code to c)

  unfoldable pub perform {ℓ} :
      {A : Type ℓ} → Gen A → ℕ → Option ℕ × Cpu → Option (A × ℕ × (Option ℕ × Cpu))
  perform g next st = run_result (g next) st

  run_result-prepend {ℓ} :
      {A : Type ℓ} (code : List Lir) (r : Option (A × ℕ × List Lir)) (to : Option ℕ) (c : Cpu)
      → run_result (prepend code r) (to, c) ≡ run_result r (run clobber s is_referent code to c)
  run_result-prepend code none to c = refl
  run_result-prepend code (some (a, next, more)) to c = rw (run-append code more to c) refl

  -- The rest of a `do` block, from what its first part has done.
  abbrev pub go_on {ℓ κ} :
      {A : Type ℓ} {B : Type κ}
      → (A → Gen B)
      → Option (A × ℕ × (Option ℕ × Cpu))
      → Option (B × ℕ × (Option ℕ × Cpu))
  go_on f none = none
  go_on f (some (a, next, st)) = perform (f a) next st

  run_result-continue {ℓ κ} :
      {A : Type ℓ} {B : Type κ} (f : A → Gen B) (r : Option (A × ℕ × List Lir)) (to : Option ℕ)
      (c : Cpu)
      → run_result (continue f r) (to, c) ≡ go_on f (run_result r (to, c))
  unfolding perform
  run_result-continue f none to c = refl
  run_result-continue f (some (a, next, code)) to c = run_result-prepend code (f a next) to c

  pub perform-bind {ℓ κ} :
      {A : Type ℓ} {B : Type κ} (m : Gen A) (f : A → Gen B) (next : ℕ) (to : Option ℕ) (c : Cpu)
      → perform (m >>= f) next (to, c) ≡ go_on f (perform m next (to, c))
  unfolding perform
  perform-bind m f next to c = run_result-continue f (m next) to c

  pub perform-then {ℓ κ} :
      {A : Type ℓ} {B : Type κ} (g : Gen A) {a : A} {n' : ℕ} {st : Option ℕ × Cpu} (n : ℕ) (c : Cpu)
      → perform g n (none, c) ≡ some (a, n', st)
      → (f : A → Gen B) → perform (g >>= f) n (none, c) ≡ perform (f a) n' st
  perform-then g n c e f = perform-bind g f n none c ∙ ap (λ r. go_on f r) e
