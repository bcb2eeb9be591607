-- ===== src/MutationTester/Totals.antt =====
-- What the report says of the results.
use arb_bridge_peripherals.Base.{
  ℕ, suc, ◌+◌, ◌≤◌, ◌≡◌, refl, sym, ap, subst, ◌∙◌, Bool, true, false, Bool-cases, inl, inr, none,
  some, List, [], ◌∷◌, ◌++◌, append_assoc, append-nil, append_cong, map, Text, length,
  if◌then◌else◌, ◌===◌, arith,
}
use arb_bridge_peripherals.MutationTester.{
  Mutant, MutantStatus, killed, survived, TestResult, Tools,
}
use arb_bridge_peripherals.MutationTester.Batches.{
  Joined, waiting, refused, joined, Env, test_all_mutants,
}
use arb_bridge_peripherals.MutationTester.Report.{
  Line, heading, separator, total, share, row_of, Tally, count_result, count_results, no_results,
  separator_for, print_results, End, unfinished, error_printed, reported_with_error, remove_all,
  reported, run_mutation_testing,
}
use arb_bridge_peripherals.MutationTester.Turns.{Distinct}
use arb_bridge_peripherals.MutationTester.Settling.{IsFair}
use arb_bridge_peripherals.MutationTester.OneByOne.{one_by_one, one_by_one-answers}
use arb_bridge_peripherals.MutationTester.Exhaustive.{test_all_mutants-one_by_one}

-- The results with a status.
abbrev pub number_of : MutantStatus → List TestResult → ℕ
number_of s [] = 0
number_of s (r ∷ rs) =
    let n = number_of s rs in
    elim s [
      | killed ↦ elim r.status [ killed ↦ suc n | survived ↦ n ]
      | survived ↦ elim r.status [ killed ↦ n | survived ↦ suc n ]
    ]

-- The lines of a report without its separators.
abbrev pub without_separators : List Line → List Line
without_separators [] = []
without_separators (separator ∷ ls) = without_separators ls
without_separators (l ∷ ls) = l ∷ without_separators ls

without_separators-append :
    (ls ms : List Line)
    → without_separators (ls ++ ms) ≡ without_separators ls ++ without_separators ms
without_separators-append [] ms = refl
without_separators-append (separator ∷ ls) ms = without_separators-append ls ms
without_separators-append (l ∷ ls) ms = ap (λ ks. l ∷ ks) (without_separators-append ls ms)

one_row :
    (r : TestResult) (y : Tally)
    → without_separators (separator_for r y ++ row_of r ∷ []) ≡ row_of r ∷ []
unfolding separator_for row_of
one_row r y = elim (Bool-cases (r.file_name === y.last_file_name)) [
  | inl b ↦ at true b
  | inr b ↦ at false b
]
  where
    at :
        (c : Bool)
        → (r.file_name === y.last_file_name) ≡ c
        → without_separators (separator_for r y ++ row_of r ∷ []) ≡ row_of r ∷ []
    at true b = ap (λ c. without_separators ((if c then [] else separator ∷ []) ++ row_of r ∷ [])) b
    at false b =
        ap (λ c. without_separators ((if c then [] else separator ∷ []) ++ row_of r ∷ [])) b

-- A tally after some results, from the tally before them.
abbrev Counted : List TestResult → Tally → Tally → Type 0
Counted rs y z =
    (z.killed_count ≡ number_of killed rs + y.killed_count)
    × (z.survived_count ≡ number_of survived rs + y.survived_count)
    × (without_separators z.lines ≡ without_separators y.lines ++ map row_of rs)

count_results-Counted : (rs : List TestResult) (y : Tally) → Counted rs y (count_results rs y)
unfolding count_results count_result
count_results-Counted [] y =
    (omega arith, omega arith, sym (append-nil (without_separators y.lines)))
count_results-Counted (r ∷ rs) y =
    let rest : Counted rs (count_result r y) (count_results rs (count_result r y)) =
      count_results-Counted rs (count_result r y) in
    (
      ground (arith, rest.0),
      ground (arith, rest.1),
      rest.2
          ∙ append_cong (map row_of rs) (
              without_separators-append y.lines (separator_for r y ++ row_of r ∷ [])
              ∙ ap (λ ls. without_separators y.lines ++ ls) (one_row r y))
          ∙ append_assoc (without_separators y.lines) (row_of r ∷ []) (map row_of rs),
    )

number_of_add : (rs : List TestResult) → number_of killed rs + number_of survived rs ≡ length rs
number_of_add [] = omega arith
number_of_add (r ∷ rs) = ground (arith, number_of_add rs)

-- A report of results: their rows, their number, and the shares of those killed and of the others.
abbrev pub Reports : (ℕ → ℕ → Text) → List TestResult → List Line → Type 0
Reports percentage rs out =
    (without_separators out
      ≡ heading ∷ map row_of rs
        ++ total (length rs)
          ∷ share killed (number_of killed rs) (percentage (number_of killed rs) (length rs))
          ∷ share survived (number_of survived rs) (percentage (number_of survived rs) (length rs))
          ∷ [])
    × (number_of killed rs + number_of survived rs ≡ length rs)

-- Apart from its separators, a report is the heading, the rows of the results in their order, their
-- number, and the numbers of killed and of surviving mutants with their percentages. The two numbers
-- add up to the number of the results.
pub print_results-Reports :
    (percentage : ℕ → ℕ → Text) (rs : List TestResult)
    → Reports percentage rs (print_results percentage rs)
unfolding print_results no_results
print_results-Reports percentage rs =
    let counted : Counted rs no_results (count_results rs no_results) =
      count_results-Counted rs no_results in
    let figures : ℕ → ℕ → List Line = λ k s.
      heading ∷ map row_of rs
      ++ total (length rs)
        ∷ share killed k (percentage k (length rs))
        ∷ share survived s (percentage s (length rs))
        ∷ [] in
    (
      without_separators-append (count_results rs no_results).lines _
          ∙ append_cong _ counted.2
          ∙ ap (λ k. figures k (count_results rs no_results).survived_count)
              (counted.0 ∙ omega arith)
          ∙ ap (figures (number_of killed rs)) (counted.1 ∙ omega arith),
      number_of_add rs,
    )

module _ (T : Tools) where
  abbrev pub EndOf : (ℕ → ℕ → Text) → Env T → Joined → End × Env T → Type 0
  EndOf percentage e (joined rs) out =
      (T.removes_all ≡ true → out ≡ (reported (print_results percentage rs), λ _. none))
      × (T.removes_all ≡ false → out.0 ≡ reported_with_error (print_results percentage rs))
  EndOf percentage e refused out = out.0 ≡ error_printed
  EndOf percentage e waiting out = ⊥

  -- With at least one task at a time, a schedule for each batch that gives every test its 13 turns, and
  -- mutants whose ids are all different, a run of the mutation tests comes to its end: where the mutants
  -- tested one after the other give results, it reports these results and leaves no test directory, or
  -- prints an error after the report if the directories cannot be removed; and where one of those tests
  -- raises an error, it prints the error.
  pub run_mutation_testing-ends :
      (n : ℕ) (ks : ℕ → List ℕ) (percentage : ℕ → ℕ → Text) (ms : List Mutant) (e : Env T)
      → 1 ≤ n
      → ((j : ℕ) → IsFair n (ks j))
      → Distinct ms
      → EndOf percentage e (one_by_one T e ms) (run_mutation_testing T n ks percentage (some ms) e)
  unfolding run_mutation_testing remove_all
  run_mutation_testing-ends n ks percentage ms e some_task fair apart =
      subst (λ j. EndOf percentage e j (run_mutation_testing T n ks percentage (some ms) e))
        (test_all_mutants-one_by_one T n ks ms e some_task fair apart)
        (at (test_all_mutants T n ks (suc (length ms)) 0 ms [] e).0
          (test_all_mutants T n ks (suc (length ms)) 0 ms [] e).1
          (λ h. answered (sym (test_all_mutants-one_by_one T n ks ms e some_task fair apart) ∙ h)))
    where
      answered : ¬ (one_by_one T e ms ≡ waiting)
      answered h = elim (one_by_one-answers T e ms) [ inl r ↦ cc | inr (rs, r) ↦ cc ]

      at :
          (j : Joined) (f : Env T)
          → ¬ (j ≡ waiting)
          → EndOf percentage e j (elim j as (λ _. End × Env T) [
            | waiting ↦ (unfinished, f)
            | refused ↦ (error_printed, f)
            | joined rs ↦ remove_all T (print_results percentage rs) f
          ])
      at waiting f h = h refl
      at refused f h = refl
      at (joined rs) f h = (λ e. ground (arith, e), λ e. ground (arith, e))
