-- ===== src/MutationTester/Exhaustive.antt =====
-- The loop over the batches compared with the tests of the mutants one after the other.
use arb_bridge_peripherals.Base.{
  ℕ, zero, suc, ◌+◌, ◌-◌, ◌≤◌, ◌<◌, ◌≡◌, refl, sym, ap, subst, ◌∙◌, inl, inr, Bool, true, false,
  List, [], ◌∷◌, ◌++◌, map, length, take, drop, ltb, All, All-map, All-of_every, All-both,
  All-append-left, All-append-right, drop-add, drop-all, length-take, take-append-drop, ◌≢◌,
  append-nil, arith,
}
use arb_bridge_peripherals.MutationTester.{Mutant, Tools, TestResult}
use arb_bridge_peripherals.MutationTester.Batches.{
  Joined, waiting, refused, joined, join, slice, Env, start, test_batch, test_all_mutants,
}
use arb_bridge_peripherals.MutationTester.Turns.{Distinct, interleave-env}
use arb_bridge_peripherals.MutationTester.Settling.{IsFair}
use arb_bridge_peripherals.MutationTester.OneByOne.{
  one_by_one, one_by_one-append, one_by_one-agree, one_by_one-answers, join_assoc, mutants-start,
  test_batch-one_by_one,
}

Distinct-left : (xs ys : List Mutant) → Distinct (xs ++ ys) → Distinct xs
Distinct-left [] ys h = tt
Distinct-left (x ∷ xs) ys h = (All-append-left _ xs ys h.0, Distinct-left xs ys h.1)

Distinct-right : (xs ys : List Mutant) → Distinct (xs ++ ys) → Distinct ys
Distinct-right [] ys h = h
Distinct-right (x ∷ xs) ys h = Distinct-right xs ys h.1

Distinct-apart :
    (xs ys : List Mutant)
    → Distinct (xs ++ ys)
    → All (λ (n : Mutant). All (λ (m : Mutant). m.id ≢ n.id) xs) ys
Distinct-apart [] ys h = All-of_every ys (λ n. tt)
Distinct-apart (x ∷ xs) ys h =
    All-both _ _ ys (All-map ys (λ n d. d.0) (All-append-right _ xs ys h.0))
      (Distinct-apart xs ys h.1)

module _ (T : Tools) where
  -- The mutants after a batch keep their directories.
  test_batch-env :
      (ks : List ℕ) (ms ns : List Mutant) (e : Env T)
      → Distinct (ms ++ ns)
      → All (λ (m : Mutant). (test_batch T ks ms e).1 m.id ≡ e m.id) ns
  unfolding test_batch
  test_batch-env ks ms ns e apart =
      All-map ns
        (λ n far.
          interleave-env T ks (map (start T) ms) e n.id
            (subst (All (λ (m : Mutant). m.id ≢ n.id)) (sym (mutants-start T ms)) far))
        (Distinct-apart ms ns apart)

  proceed-one_by_one :
      (next : List TestResult → Joined × Env T) (rs : List TestResult) (batch later : List Mutant)
      (e f : Env T) (j : Joined)
      → j ≡ one_by_one T e batch
      → All (λ (m : Mutant). f m.id ≡ e m.id) later
      → ((ss : List TestResult) → (next ss).0 ≡ join (joined (rs ++ ss)) (one_by_one T f later))
      → (elim j as (λ _. Joined × Env T) [
        | waiting ↦ (waiting, f)
        | refused ↦ (refused, f)
        | joined ss ↦ next ss
      ]).0
        ≡ join (joined rs) (one_by_one T e (batch ++ later))
  unfolding join
  proceed-one_by_one next rs batch later e f waiting b same ih =
      elim (one_by_one-answers T e batch) [ inl h ↦ cc | inr (ss, h) ↦ cc ]
  proceed-one_by_one next rs batch later e f refused b same ih =
      ap (join (joined rs))
        (ap (λ j. join j (one_by_one T e later)) b ∙ sym (one_by_one-append T e batch later))
  proceed-one_by_one next rs batch later e f (joined ss) b same ih =
      ih ss
      ∙ ap (join (joined (rs ++ ss))) (one_by_one-agree T f e later same)
      ∙ join_assoc (joined rs) (joined ss) (one_by_one T e later)
      ∙ ap (join (joined rs))
          (ap (λ j. join j (one_by_one T e later)) b ∙ sym (one_by_one-append T e batch later))

  test_all_mutants-from :
      (n : ℕ) (ks : ℕ → List ℕ) (fuel i : ℕ) (ms : List Mutant) (rs : List TestResult) (e : Env T)
      → 1 ≤ n
      → length ms - i < fuel
      → ((j : ℕ) → IsFair n (ks j))
      → Distinct (drop i ms)
      → (test_all_mutants T n ks fuel i ms rs e).0 ≡ join (joined rs) (one_by_one T e (drop i ms))
  unfolding test_all_mutants slice join one_by_one
  test_all_mutants-from n ks zero i ms rs e some_task enough fair apart =
      absurd (omega (arith, enough))
  test_all_mutants-from n ks (suc fuel) i ms rs e some_task enough fair apart =
      at (ltb i (length ms)) refl (λ less d ss f.
        test_all_mutants-from n ks fuel (i + n) ms (rs ++ ss) f some_task less fair d)
    where
      batch : List Mutant
      batch = take ((i + n) - i) (drop i ms)

      later : List Mutant
      later = drop (i + n) ms

      whole : (i + n) - i ≡ n
      whole = omega arith

      parts : batch ++ later ≡ drop i ms
      parts =
          ap (λ k. take k (drop i ms) ++ later) whole
          ∙ ap (λ l. take n (drop i ms) ++ l) (drop-add i n ms)
          ∙ take-append-drop n (drop i ms)

      small : length batch ≤ n
      small = omega (arith, whole, length-take ((i + n) - i) (drop i ms))

      apart' : Distinct (batch ++ later)
      apart' = subst Distinct (sym parts) apart

      at :
          (b : Bool)
          → ltb i (length ms) ≡ b
          → (length ms - (i + n) < fuel
              → Distinct later
              → (ss : List TestResult) (f : Env T)
              → (test_all_mutants T n ks fuel (i + n) ms (rs ++ ss) f).0
                ≡ join (joined (rs ++ ss)) (one_by_one T f later))
          → (elim b as (λ _. Joined × Env T) [
            | false ↦ (joined rs, e)
            | true ↦ elim (test_batch T (ks i) batch e).0 as (λ _. Joined × Env T) [
              | waiting ↦ (waiting, (test_batch T (ks i) batch e).1)
              | refused ↦ (refused, (test_batch T (ks i) batch e).1)
              | joined ss ↦
                  test_all_mutants T n ks fuel (i + n) ms (rs ++ ss) (test_batch T (ks i) batch e).1
            ]
          ]).0
            ≡ join (joined rs) (one_by_one T e (drop i ms))
      at false b ih =
          ap joined (sym (append-nil rs))
          ∙ ap (λ l. join (joined rs) (one_by_one T e l)) (sym (drop-all i ms (ground (arith, b))))
      at true b ih =
          proceed-one_by_one
            (λ ss.
              test_all_mutants T n ks fuel (i + n) ms (rs ++ ss) (test_batch T (ks i) batch e).1)
            rs batch later e (test_batch T (ks i) batch e).1 (test_batch T (ks i) batch e).0
            (test_batch-one_by_one T n (ks i) batch e small (fair i)
              (Distinct-left batch later apart'))
            (test_batch-env (ks i) batch later e apart')
            (λ ss.
              ih (ground (arith, b, enough, some_task)) (Distinct-right batch later apart') ss
                (test_batch T (ks i) batch e).1)
          ∙ ap (λ l. join (joined rs) (one_by_one T e l)) parts

  -- With at least one task at a time, a schedule for each batch that gives every test its 13 turns, and
  -- mutants whose ids are all different, the loop ends, and its answer is the one of the mutants tested
  -- one after the other: the same results in the order of the mutants, or an error where one of those
  -- tests raises one.
  pub test_all_mutants-one_by_one :
      (n : ℕ) (ks : ℕ → List ℕ) (ms : List Mutant) (e : Env T)
      → 1 ≤ n
      → ((j : ℕ) → IsFair n (ks j))
      → Distinct ms
      → (test_all_mutants T n ks (suc (length ms)) 0 ms [] e).0 ≡ one_by_one T e ms
  unfolding join
  test_all_mutants-one_by_one n ks ms e some_task fair apart =
      test_all_mutants-from n ks (suc (length ms)) 0 ms [] e some_task (omega arith) fair apart
      ∙ elim (one_by_one-answers T e ms) [ inl h ↦ cc | inr (rs, h) ↦ cc ]
