-- ===== src/MutationTester/OneByOne.antt =====
-- The tests of the mutants one after the other, and a batch compared with them.
use arb_bridge_peripherals.Base.{
  ℕ, ◌≤◌, ◌≡◌, refl, sym, ap, subst, ◌∙◌, ◌⊎◌, inl, inr, Option, none, some, List, [], ◌∷◌, ◌++◌,
  append_assoc, map, length, All, arith,
}
use arb_bridge_peripherals.MutationTester.{
  Mutant, MutantStatus, Tools, fulfilled, rejected, result_of, TestResult,
}
use arb_bridge_peripherals.MutationTester.Alone.{test_mutant}
use arb_bridge_peripherals.MutationTester.Batches.{
  Joined, waiting, refused, joined, join, Task, Env, interleave, settled, promise_all, start,
  test_batch,
}
use arb_bridge_peripherals.MutationTester.Turns.{
  Distinct, mutants, statuses, interleave-mutants, interleave-statuses,
}
use arb_bridge_peripherals.MutationTester.Settling.{HasSettled, IsFair, interleave-HasSettled}

pub join_assoc : (a b c : Joined) → join (join a b) c ≡ join a (join b c)
unfolding join
join_assoc refused b c = refl
join_assoc waiting refused c = refl
join_assoc waiting waiting c = ground arith
join_assoc waiting (joined ys) c = ground arith
join_assoc (joined xs) refused c = refl
join_assoc (joined xs) waiting c = ground arith
join_assoc (joined xs) (joined ys) refused = refl
join_assoc (joined xs) (joined ys) waiting = refl
join_assoc (joined xs) (joined ys) (joined zs) = ap joined (append_assoc xs ys zs)

module _ (T : Tools) where
  abbrev outcome_of : Mutant → Option MutantStatus → Joined
  outcome_of m none = refused
  outcome_of m (some s) = joined (result_of T m s ∷ [])

  -- The mutants tested one after the other, in the directories that are there at the start.
  unfoldable pub one_by_one : Env T → List Mutant → Joined
  one_by_one e [] = joined []
  one_by_one e (m ∷ ms) = join (outcome_of m (test_mutant T m (e m.id))) (one_by_one e ms)

  pub one_by_one-append :
      (e : Env T) (xs ys : List Mutant)
      → one_by_one e (xs ++ ys) ≡ join (one_by_one e xs) (one_by_one e ys)
  unfolding one_by_one join
  one_by_one-append e [] ys = ground arith
  one_by_one-append e (x ∷ xs) ys =
      ap (join (outcome_of x (test_mutant T x (e x.id)))) (one_by_one-append e xs ys)
      ∙ sym
          (join_assoc (outcome_of x (test_mutant T x (e x.id))) (one_by_one e xs) (one_by_one e ys))

  pub one_by_one-agree :
      (e f : Env T) (ms : List Mutant)
      → All (λ (m : Mutant). e m.id ≡ f m.id) ms
      → one_by_one e ms ≡ one_by_one f ms
  unfolding one_by_one
  one_by_one-agree e f [] h = refl
  one_by_one-agree e f (m ∷ ms) h = cc (h.0, one_by_one-agree e f ms h.1)

  pub one_by_one-answers :
      (e : Env T) (ms : List Mutant)
      → (one_by_one e ms ≡ refused) ⊎ ((rs : List TestResult) × (one_by_one e ms ≡ joined rs))
  unfolding one_by_one join
  one_by_one-answers e [] = inr ([], refl)
  one_by_one-answers e (m ∷ ms) = at (test_mutant T m (e m.id)) (one_by_one-answers e ms)
    where
      IsAnswer : Joined → Type 0
      IsAnswer j = (j ≡ refused) ⊎ ((rs : List TestResult) × (j ≡ joined rs))

      at :
          (o : Option MutantStatus)
          → IsAnswer (one_by_one e ms)
          → IsAnswer (join (outcome_of m o) (one_by_one e ms))
      at none h = inl refl
      at (some s) (inl h) = inl (ap (join (joined (result_of T m s ∷ []))) h)
      at (some s) (inr (rs, h)) =
          inr (result_of T m s ∷ rs, ap (join (joined (result_of T m s ∷ []))) h)

  abbrev collect : List Mutant → List (Option MutantStatus) → Joined
  collect (m ∷ ms) (o ∷ os) = join (outcome_of m o) (collect ms os)
  collect _ _ = joined []

  promise_all-collect :
      (e : Env T) (ts : List Task)
      → All HasSettled ts
      → promise_all T ts ≡ collect (mutants T ts) (statuses T e ts)
  unfolding promise_all settled
  promise_all-collect e [] h = refl
  promise_all-collect e ((m, fulfilled s) ∷ ts) h =
      ap (join (joined (result_of T m s ∷ []))) (promise_all-collect e ts h.1)
  promise_all-collect e ((m, rejected) ∷ ts) h = ap (join refused) (promise_all-collect e ts h.1)
  promise_all-collect e ((m, p) ∷ ts) h = absurd (omega (arith, h.0))

  collect-start :
      (e : Env T) (ms : List Mutant)
      → collect ms (statuses T e (map (start T) ms)) ≡ one_by_one e ms
  unfolding one_by_one start
  collect-start e [] = refl
  collect-start e (m ∷ ms) =
      ap (join (outcome_of m (test_mutant T m (e m.id)))) (collect-start e ms)

  pub mutants-start : (ms : List Mutant) → mutants T (map (start T) ms) ≡ ms
  unfolding start
  mutants-start [] = refl
  mutants-start (m ∷ ms) = ap (λ ns. m ∷ ns) (mutants-start ms)

  -- The batch, whatever the order of its turns.
  pub test_batch-one_by_one :
      (n : ℕ) (ks : List ℕ) (ms : List Mutant) (e : Env T)
      → length ms ≤ n
      → IsFair n ks
      → Distinct ms
      → (test_batch T ks ms e).0 ≡ one_by_one e ms
  unfolding test_batch
  test_batch-one_by_one n ks ms e small fair apart =
      promise_all-collect ended.1 ended.0 (interleave-HasSettled T n ks ms e small fair)
      ∙ ap (λ ns. collect ns (statuses T ended.1 ended.0))
          (interleave-mutants T ks (map (start T) ms) e ∙ mutants-start ms)
      ∙ ap (collect ms) (
          interleave-statuses T ks (map (start T) ms) e
            (subst Distinct (sym (mutants-start ms)) apart))
      ∙ collect-start e ms
    where
      ended : List Task × Env T
      ended = interleave T ks (map (start T) ms) e
