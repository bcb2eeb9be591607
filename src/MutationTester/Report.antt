-- ===== src/MutationTester/Report.antt =====
-- `_printResults` and `runMutationTesting`. The percentages, numbers with decimals, are a parameter.
use arb_bridge_peripherals.Base.{
  ℕ, suc, ◌-◌, Option, none, some, List, [], ◌∷◌, ◌++◌, Text, codes, length, replicate,
  if◌then◌else◌, ◌===◌,
}
use arb_bridge_peripherals.MutationTester.{
  Mutant, MutantStatus, killed, survived, TestResult, Tools,
}
use arb_bridge_peripherals.MutationTester.Batches.{waiting, refused, joined, Env, test_all_mutants}

pub data Line : Type 0 where
  heading : Line
  separator : Line
  row : Text → Line
  total : ℕ → Line
  share : MutantStatus → ℕ → Text → Line

unfoldable pub pad_end : ℕ → Text → Text
pad_end n t = t ++ replicate (n - length t) b' '

unfoldable pub status_name : MutantStatus → Text
status_name killed = codes "KILLED"
status_name survived = codes "SURVIVED"

unfoldable pub row_of : TestResult → Line
unfolding pad_end status_name
row_of r = row (
    pad_end 9 r.mutant_id
    ++ codes " | "
    ++ pad_end 20 r.file_name
    ++ codes " | "
    ++ status_name r.status)

pub record Tally : Type 0 where
  pub last_file_name : Text
  pub killed_count : ℕ
  pub survived_count : ℕ
  pub lines : List Line

unfoldable pub separator_for : TestResult → Tally → List Line
separator_for r y = if r.file_name === y.last_file_name then [] else separator ∷ []

unfoldable pub count_result : TestResult → Tally → Tally
unfolding row_of separator_for
count_result r y = record {
  last_file_name = r.file_name;
  killed_count = elim r.status [ killed ↦ suc y.killed_count | survived ↦ y.killed_count ];
  survived_count = elim r.status [ killed ↦ y.survived_count | survived ↦ suc y.survived_count ];
  lines = y.lines ++ (separator_for r y ++ row_of r ∷ []);
}

unfoldable pub count_results : List TestResult → Tally → Tally
unfolding count_result
count_results [] y = y
count_results (r ∷ rs) y = count_results rs (count_result r y)

unfoldable pub no_results : Tally
no_results = record {
  last_file_name = [];
  killed_count = 0;
  survived_count = 0;
  lines = heading ∷ separator ∷ [];
}

unfoldable pub print_results : (ℕ → ℕ → Text) → List TestResult → List Line
unfolding count_results no_results
print_results percentage rs =
    let y = count_results rs no_results in
    y.lines
    ++ separator
      ∷ total (length rs)
      ∷ share killed y.killed_count (percentage y.killed_count (length rs))
      ∷ share survived y.survived_count (percentage y.survived_count (length rs))
      ∷ []

-- How `runMutationTesting` ends: it still waits, its error is printed, or its report is.
pub data End : Type 0 where
  unfinished : End
  error_printed : End
  reported : List Line → End
  -- the report, and after it an error
  reported_with_error : List Line → End

module _ (T : Tools) where
  -- The test directories are removed after the report; an error there is printed too.
  unfoldable pub remove_all : List Line → Env T → End × Env T
  remove_all lines e =
      if T.removes_all then (reported lines, λ _. none) else (reported_with_error lines, e)

  unfoldable pub run_mutation_testing :
      (max_tasks : ℕ) (schedules : ℕ → List ℕ) (percentage : ℕ → ℕ → Text)
      → Option (List Mutant)
      → Env T
      → End × Env T
  unfolding test_all_mutants print_results remove_all
  run_mutation_testing n ks percentage none e = (error_printed, e)
  run_mutation_testing n ks percentage (some ms) e =
      let (j, f) = test_all_mutants T n ks (suc (length ms)) 0 ms [] e in
      elim j [
        | waiting ↦ (unfinished, f)
        | refused ↦ (error_printed, f)
        | joined rs ↦ remove_all (print_results percentage rs) f
      ]
