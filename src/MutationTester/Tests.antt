-- ===== src/MutationTester/Tests.antt =====
-- Three mutants, two at a time, whose turns alternate. A directory is the list of the names in it.
use arb_bridge_peripherals.Base.{
  ℕ, zero, suc, ◌≡◌, refl, ap, Bool, true, not, none, some, List, [], ◌∷◌, map, Text, codes, any,
  if◌then◌else◌, ◌===◌, arith,
}
use arb_bridge_peripherals.MutationTester.{
  Mutant, MutantStatus, TestResult, killed, survived, Tools, result_of,
}
use arb_bridge_peripherals.MutationTester.Batches.{Joined, joined, refused, Env, test_all_mutants}
use arb_bridge_peripherals.MutationTester.Report.{print_results, run_mutation_testing}
use arb_bridge_peripherals.MutationTester.Turns.{Distinct}
use arb_bridge_peripherals.MutationTester.Settling.{IsFair}
use arb_bridge_peripherals.MutationTester.OneByOne.{one_by_one}
use arb_bridge_peripherals.MutationTester.Exhaustive.{test_all_mutants-one_by_one}
use arb_bridge_peripherals.MutationTester.Totals.{
  Reports, print_results-Reports, EndOf, run_mutation_testing-ends,
}

abbrev holds : Text → List Text → Bool
holds x t = any (λ y. x === y) t

-- A link over a name that is there is refused, and the tests find the mutant called `bad`.
abbrev small_tools : Tools
small_tools = record {
  Tree = List Text;
  empty_directory = [];
  ensures = λ d. true;
  removes = λ d. true;
  removes_all = true;
  copy = λ x t. some (x ∷ t);
  symlink = λ x t. if holds x t then none else some (x ∷ t);
  copy_file = λ name original t. some (name ∷ t);
  forge_build = λ t. (true, t);
  forge_test = λ t. (not (holds (codes "bad") t), t);
  basename = λ t. t;
}

abbrev mutant : Text → Text → Mutant
mutant i n = record { id = i; name = n; original = codes "contracts/A.sol" }

abbrev three_mutants : List Mutant
three_mutants =
    mutant (codes "1") (codes "bad")
    ∷ mutant (codes "2") (codes "good")
    ∷ mutant (codes "3") (codes "bad")
    ∷ []

abbrev alternate : ℕ → List ℕ
alternate zero = []
alternate (suc n) = 1 ∷ 0 ∷ alternate n

abbrev no_directories : Env small_tools
no_directories k = none

alternate-IsFair : IsFair 2 (alternate 13)
unfolding IsFair
alternate-IsFair zero h = omega arith
alternate-IsFair (suc zero) h = omega arith
alternate-IsFair (suc (suc k)) h = absurd (omega (arith, h))

abbrev first : Text → ℕ
first [] = 0
first (c ∷ cs) = c

three_mutants-Distinct : Distinct three_mutants
three_mutants-Distinct = (
  (
    (λ h. omega (arith, ap first h), λ h. omega (arith, ap first h)),
    ((λ h. omega (arith, ap first h), λ h. omega (arith, ap first h)), tt),
  ),
  (((λ h. omega (arith, ap first h), λ h. omega (arith, ap first h)), tt), (tt, tt)),
)

abbrev statuses_of : Joined → List MutantStatus
statuses_of (joined rs) = map (λ (r : TestResult). r.status) rs
statuses_of _ = []

three_mutants_tested :
    statuses_of
      (test_all_mutants small_tools 2 (λ i. alternate 13) 4 0 three_mutants [] no_directories).0
    ≡ killed ∷ survived ∷ killed ∷ []
unfolding test_all_mutants ◌===◌
three_mutants_tested = refl

-- A directory that an earlier run has left has its links already.
left_by_earlier_run :
    (test_all_mutants small_tools 2
      (λ i. alternate 13)
      4
      0
      three_mutants
      []
      (λ k. some (codes "lib" ∷ []))).0
    ≡ refused
unfolding test_all_mutants ◌===◌
left_by_earlier_run = refl

test_all_mutants-one_by_one_example :
    (test_all_mutants small_tools 2 (λ i. alternate 13) 4 0 three_mutants [] no_directories).0
    ≡ one_by_one small_tools no_directories three_mutants
test_all_mutants-one_by_one_example =
    test_all_mutants-one_by_one small_tools 2 (λ i. alternate 13) three_mutants no_directories
      (omega arith) (λ j. alternate-IsFair) three_mutants-Distinct

run_mutation_testing-ends_example :
    EndOf small_tools
      (λ k n. [])
      no_directories
      (one_by_one small_tools no_directories three_mutants)
      (run_mutation_testing small_tools 2
        (λ i. alternate 13)
        (λ k n. [])
        (some three_mutants)
        no_directories)
run_mutation_testing-ends_example =
    run_mutation_testing-ends small_tools 2 (λ i. alternate 13) (λ k n. []) three_mutants
      no_directories (omega arith) (λ j. alternate-IsFair) three_mutants-Distinct

print_results-Reports_example :
    Reports
      (λ k n. codes "50.00")
      (result_of small_tools (mutant (codes "1") (codes "bad")) killed
        ∷ result_of small_tools (mutant (codes "2") (codes "good")) survived
        ∷ [])
      (print_results
        (λ k n. codes "50.00")
        (result_of small_tools (mutant (codes "1") (codes "bad")) killed
          ∷ result_of small_tools (mutant (codes "2") (codes "good")) survived
          ∷ []))
print_results-Reports_example =
    print_results-Reports (λ k n. codes "50.00")
      (result_of small_tools (mutant (codes "1") (codes "bad")) killed
        ∷ result_of small_tools (mutant (codes "2") (codes "good")) survived
        ∷ [])
