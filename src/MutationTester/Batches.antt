-- ===== src/MutationTester/Batches.antt =====
-- `_testAllMutants`: the tests of a batch run side by side, each in the directory of its mutant, and
-- the next batch starts when all have ended. Which test moves next is not the program's choice: a
-- schedule says it, by the position of the test in its batch.
use arb_bridge_peripherals.Base.{
  ℕ, zero, suc, ◌+◌, ◌-◌, true, false, Option, List, [], ◌∷◌, ◌++◌, map, Text, length, take, drop,
  ltb, if◌then◌else◌, ◌===◌,
}
use arb_bridge_peripherals.MutationTester.{
  Mutant, TestResult, Tools, Phase, ensuring, fulfilled, rejected, advance, result_of,
}

-- What `Promise.all` knows: not all tests have ended, one has raised an error, or all results.
pub data Joined : Type 0 where
  waiting : Joined
  refused : Joined
  joined : List TestResult → Joined

unfoldable pub join : Joined → Joined → Joined
join refused k = refused
join waiting refused = refused
join waiting k = waiting
join (joined rs) refused = refused
join (joined rs) waiting = waiting
join (joined rs) (joined ss) = joined (rs ++ ss)

unfoldable pub slice : {A : Type 0} → ℕ → ℕ → List A → List A
slice i j xs = take (j - i) (drop i xs)

abbrev pub Task : Type 0
Task = Mutant × Phase

module _ (T : Tools) where
  -- The directories under `mutant_test_env`, by the mutant's id.
  abbrev pub Env : Type 0
  Env = Text → Option T.Tree

  unfoldable pub put : Text → Option T.Tree → Env → Env
  put k d e j = if j === k then d else e j

  unfoldable pub turn : Task → Env → Task × Env
  unfolding advance put
  turn (m, p) e = let (q, d) = advance T m p (e m.id) in ((m, q), put m.id d e)

  unfoldable pub take_turn : ℕ → List Task → Env → List Task × Env
  unfolding turn
  take_turn k [] e = ([], e)
  take_turn zero (t ∷ ts) e = let (u, f) = turn t e in (u ∷ ts, f)
  take_turn (suc k) (t ∷ ts) e = let (us, f) = take_turn k ts e in (t ∷ us, f)

  unfoldable pub interleave : List ℕ → List Task → Env → List Task × Env
  unfolding take_turn
  interleave [] ts e = (ts, e)
  interleave (k ∷ ks) ts e = let (us, f) = take_turn k ts e in interleave ks us f

  unfoldable pub settled : Task → Joined
  unfolding result_of
  settled (m, fulfilled s) = joined (result_of T m s ∷ [])
  settled (m, rejected) = refused
  settled (m, _) = waiting

  unfoldable pub promise_all : List Task → Joined
  unfolding join settled
  promise_all [] = joined []
  promise_all (t ∷ ts) = join (settled t) (promise_all ts)

  unfoldable pub start : Mutant → Task
  start m = (m, ensuring)

  unfoldable pub test_batch : List ℕ → List Mutant → Env → Joined × Env
  unfolding interleave promise_all start
  test_batch ks ms e = let (ts, f) = interleave ks (map start ms) e in (promise_all ts, f)

  -- The loop over the batches, from position `i` on. `schedules` has a schedule for each position.
  unfoldable pub test_all_mutants :
      (max_tasks : ℕ) (schedules : ℕ → List ℕ) (fuel i : ℕ)
      → List Mutant
      → List TestResult
      → Env
      → Joined × Env
  unfolding test_batch slice
  test_all_mutants n ks zero i ms rs e = (waiting, e)
  test_all_mutants n ks (suc fuel) i ms rs e = elim (ltb i (length ms)) [
    | false ↦ (joined rs, e)
    | true ↦
        let (j, f) = test_batch (ks i) (slice i (i + n) ms) e in
        elim j [
          | waiting ↦ (waiting, f)
          | refused ↦ (refused, f)
          | joined ss ↦ test_all_mutants n ks fuel (i + n) ms (rs ++ ss) f
        ]
  ]
