-- ===== src/MutationTester/Settling.antt =====
-- How many turns a test needs, and schedules that give each test as many.
use arb_bridge_peripherals.Base.{
  ℕ, zero, suc, ◌+◌, ◌-◌, ◌≤◌, ◌<◌, ◌≡◌, refl, ap, ◌∙◌, Option, none, some, List, [], ◌∷◌, map,
  length, if◌then◌else◌, ◌==◌, All, arith,
}
use arb_bridge_peripherals.MutationTester.{
  Mutant, Tools, Phase, ensuring, copying, linking, replacing, building, testing, removing,
  fulfilled, rejected, advance, directory, on_tree, on_command, test_items, linked_items,
}
use arb_bridge_peripherals.MutationTester.Batches.{Task, Env, turn, take_turn, interleave, start}

-- The turns that are left to a test.
abbrev pub rank : Phase → ℕ
rank ensuring = 13
rank (copying xs) = length xs + 8
rank (linking xs) = length xs + 5
rank replacing = 4
rank building = 3
rank testing = 2
rank (removing s) = 1
rank (fulfilled s) = 0
rank rejected = 0

-- The rank of the test at a position, 0 where there is none.
abbrev pub rank_at : ℕ → List Task → ℕ
rank_at k [] = 0
rank_at zero (t ∷ ts) = rank t.1
rank_at (suc k) (t ∷ ts) = rank_at k ts

abbrev pub occurrences : ℕ → List ℕ → ℕ
occurrences k [] = 0
occurrences k (j ∷ js) = let n = occurrences k js in if k == j then suc n else n

-- Each test has its 13 turns at least.
unfoldable pub IsFair : ℕ → List ℕ → Type 0
IsFair n ks = (k : ℕ) → k < n → 13 ≤ occurrences k ks

module _ (T : Tools) where
  rank-advance :
      (m : Mutant) (p : Phase) (d : Option T.Tree) → rank (advance T m p d).0 ≤ rank p - 1
  unfolding advance test_items linked_items directory on_tree on_command
  rank-advance m ensuring d = ground arith
  rank-advance m (copying []) d = omega arith
  rank-advance m (copying (x ∷ xs)) d = ground arith
  rank-advance m (linking []) d = omega arith
  rank-advance m (linking (x ∷ xs)) none = omega arith
  rank-advance m (linking (x ∷ xs)) (some t) = ground arith
  rank-advance m replacing none = omega arith
  rank-advance m replacing (some t) = ground arith
  rank-advance m building none = omega arith
  rank-advance m building (some t) = ground arith
  rank-advance m testing none = omega arith
  rank-advance m testing (some t) = ground arith
  rank-advance m (removing s) d = ground arith
  rank-advance m (fulfilled s) d = omega arith
  rank-advance m rejected d = omega arith

  rank-take_turn :
      (k j : ℕ) (ts : List Task) (e : Env T)
      → rank_at j (take_turn T k ts e).0 ≤ rank_at j ts - (if j == k then 1 else 0)
  unfolding take_turn turn
  rank-take_turn k j [] e = ground arith
  rank-take_turn zero zero ((m, p) ∷ ts) e = rank-advance m p (e m.id)
  rank-take_turn zero (suc j) (t ∷ ts) e = ground arith
  rank-take_turn (suc k) zero (t ∷ ts) e = ground arith
  rank-take_turn (suc k) (suc j) (t ∷ ts) e = ground (arith, rank-take_turn k j ts e)

  rank-interleave :
      (ks : List ℕ) (j : ℕ) (ts : List Task) (e : Env T)
      → rank_at j (interleave T ks ts e).0 ≤ rank_at j ts - occurrences j ks
  unfolding interleave
  rank-interleave [] j ts e = omega arith
  rank-interleave (k ∷ ks) j ts e = ground (
    arith,
    rank-take_turn k j ts e,
    rank-interleave ks j (take_turn T k ts e).0 (take_turn T k ts e).1,
  )

abbrev pub HasSettled : Task → Type 0
HasSettled t = rank t.1 ≡ 0

settled_everywhere :
    (ts : List Task) → ((j : ℕ) → j < length ts → rank_at j ts ≡ 0) → All HasSettled ts
settled_everywhere [] h = tt
settled_everywhere (t ∷ ts) h =
    (h 0 (omega arith), settled_everywhere ts (λ j b. h (suc j) (omega (arith, b))))

rank-start : (T : Tools) (j : ℕ) (ms : List Mutant) → rank_at j (map (start T) ms) ≤ 13
unfolding start
rank-start T j [] = omega arith
rank-start T zero (m ∷ ms) = omega arith
rank-start T (suc j) (m ∷ ms) = rank-start T j ms

length-start : (T : Tools) (ms : List Mutant) → length (map (start T) ms) ≡ length ms
length-start T [] = refl
length-start T (m ∷ ms) = ap suc (length-start T ms)

length-take_turn :
    (T : Tools) (k : ℕ) (ts : List Task) (e : Env T) → length (take_turn T k ts e).0 ≡ length ts
unfolding take_turn
length-take_turn T k [] e = refl
length-take_turn T zero (t ∷ ts) e = refl
length-take_turn T (suc k) (t ∷ ts) e = ap suc (length-take_turn T k ts e)

length-interleave :
    (T : Tools) (ks : List ℕ) (ts : List Task) (e : Env T)
    → length (interleave T ks ts e).0 ≡ length ts
unfolding interleave
length-interleave T [] ts e = refl
length-interleave T (k ∷ ks) ts e =
    length-interleave T ks (take_turn T k ts e).0 (take_turn T k ts e).1 ∙ length-take_turn T k ts e

-- A fair schedule ends the tests of a batch.
pub interleave-HasSettled :
    (T : Tools) (n : ℕ) (ks : List ℕ) (ms : List Mutant) (e : Env T)
    → length ms ≤ n
    → IsFair n ks
    → All HasSettled (interleave T ks (map (start T) ms) e).0
unfolding IsFair start
interleave-HasSettled T n ks ms e small fair =
    settled_everywhere (interleave T ks (map (start T) ms) e).0 (λ j b. ground (
      arith,
      b,
      fair j,
      length-interleave T ks (map (start T) ms) e,
      length-start T ms,
      rank-interleave T ks j (map (start T) ms) e,
      rank-start T j ms,
    ))
