-- ===== src/MutationTester.antt =====
-- The mutation tester, test-mutation/gambitTester.ts: the test of one mutant (here), the tests of a
-- batch side by side and the batches one after the other (Batches), and the report (Report).
use arb_bridge_peripherals.Base.{
  ℕ, zero, suc, ◌+◌, Bool, true, false, Option, none, some, List, [], ◌∷◌, Text, codes, length,
  if◌then◌else◌, ◌===◌,
}
pub mod Alone
pub mod Batches
pub mod Report
pub mod Turns
pub mod Settling
pub mod OneByOne
pub mod Exhaustive
pub mod Totals
mod Tests

pub record Mutant : Type 0 where
  pub id : Text
  pub name : Text
  pub original : Text

pub data MutantStatus : Type 0 where
  killed : MutantStatus
  survived : MutantStatus

pub record TestResult : Type 0 where
  pub mutant_id : Text
  pub file_name : Text
  pub status : MutantStatus

-- Node's file functions and Foundry, each on the directory of one test. A call that raises an error
-- answers `none`; a command of `forge` tells whether it ended well.
pub record Tools : Type 1 where
  pub Tree : Type 0
  pub empty_directory : Tree
  -- whether `ensureDir` and `remove` end well on a test's directory, and `remove` on all of them
  pub ensures : Option Tree → Bool
  pub removes : Option Tree → Bool
  pub removes_all : Bool
  pub copy : Text → Tree → Option Tree
  pub symlink : Text → Tree → Option Tree
  pub copy_file : Text → Text → Tree → Option Tree
  pub forge_build : Tree → Bool × Tree
  pub forge_test : Tree → Bool × Tree
  pub basename : Text → Text

-- `TEST_TIMES`, what is copied into a test's directory
unfoldable pub test_items : List Text
test_items =
    codes "contracts" ∷ codes "foundry.toml" ∷ codes "remappings.txt" ∷ codes "test-foundry" ∷ []

unfoldable pub linked_items : List Text
linked_items = codes "lib" ∷ codes "node_modules" ∷ []

-- How far `_testMutant` has come: what it does next.
pub data Phase : Type 0 where
  ensuring : Phase
  copying : List Text → Phase
  linking : List Text → Phase
  replacing : Phase
  building : Phase
  testing : Phase
  removing : MutantStatus → Phase
  fulfilled : MutantStatus → Phase
  rejected : Phase

module _ (T : Tools) where
  -- `ensureDir`: a directory that is there is kept.
  unfoldable pub directory : Option T.Tree → T.Tree
  directory none = T.empty_directory
  directory (some t) = t

  unfoldable pub on_tree : (T.Tree → Option T.Tree) → Phase → Option T.Tree → Phase × Option T.Tree
  on_tree f next none = (rejected, none)
  on_tree f next (some t) = elim (f t) [ none ↦ (rejected, some t) | some u ↦ (next, some u) ]

  -- A command that fails kills the mutant.
  unfoldable pub on_command :
      (T.Tree → Bool × T.Tree) → Phase → Option T.Tree → Phase × Option T.Tree
  on_command f next none = (removing killed, none)
  on_command f next (some t) = let (ok, u) = f t in (if ok then next else removing killed, some u)

  -- `_testMutant` up to its next `await`, in the directory of the mutant.
  unfoldable pub advance : Mutant → Phase → Option T.Tree → Phase × Option T.Tree
  unfolding test_items linked_items directory on_tree on_command
  advance m ensuring d =
      if T.ensures d then (copying test_items, some (directory d)) else (rejected, d)
  advance m (copying []) d = (linking linked_items, d)
  advance m (copying (x ∷ xs)) d = on_tree (T.copy x) (copying xs) (some (directory d))
  advance m (linking []) d = (replacing, d)
  advance m (linking (x ∷ xs)) d = on_tree (T.symlink x) (linking xs) d
  advance m replacing d = on_tree (T.copy_file m.name m.original) building d
  advance m building d = on_command T.forge_build testing d
  advance m testing d = on_command T.forge_test (removing survived) d
  advance m (removing s) d = if T.removes d then (fulfilled s, none) else (rejected, d)
  advance m (fulfilled s) d = (fulfilled s, d)
  advance m rejected d = (rejected, d)

  unfoldable pub result_of : Mutant → MutantStatus → TestResult
  result_of m s = record { mutant_id = m.id; file_name = T.basename m.name; status = s }
