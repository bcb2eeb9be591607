-- ===== src/MutationTester/Alone.antt =====
-- `_testMutant` with nothing else running: the status that it gives a mutant, from each of its steps
-- on, or `none` when a step raises an error.
use arb_bridge_peripherals.Base.{
  Bool, true, false, Option, none, some, List, [], ◌∷◌, Text, if◌then◌else◌,
}
use arb_bridge_peripherals.MutationTester.{
  Mutant, MutantStatus, killed, survived, Tools, directory, test_items, linked_items,
}

module _ (T : Tools) where
  abbrev pub and_then : {A : Type 0} → Option T.Tree → (T.Tree → Option A) → Option A
  and_then o f = elim o [ none ↦ none | some t ↦ f t ]

  abbrev pub command : {A : Type 0} → Bool × T.Tree → (T.Tree → A) → (T.Tree → A) → A
  command r f g = elim r.0 [ true ↦ f r.1 | false ↦ g r.1 ]

  abbrev pub from_removing : MutantStatus → Option T.Tree → Option MutantStatus
  from_removing s d = if T.removes d then some s else none

  abbrev pub from_testing : Option T.Tree → Option MutantStatus
  from_testing none = from_removing killed none
  from_testing (some t) =
      command (T.forge_test t) (λ u. from_removing survived (some u))
        (λ u. from_removing killed (some u))

  abbrev pub from_building : Option T.Tree → Option MutantStatus
  from_building none = from_removing killed none
  from_building (some t) =
      command (T.forge_build t) (λ u. from_testing (some u)) (λ u. from_removing killed (some u))

  abbrev pub from_replacing : Mutant → Option T.Tree → Option MutantStatus
  from_replacing m none = none
  from_replacing m (some t) =
      and_then (T.copy_file m.name m.original t) (λ u. from_building (some u))

  abbrev pub from_linking : Mutant → List Text → Option T.Tree → Option MutantStatus
  from_linking m [] d = from_replacing m d
  from_linking m (x ∷ xs) none = none
  from_linking m (x ∷ xs) (some t) = and_then (T.symlink x t) (λ u. from_linking m xs (some u))

  abbrev pub from_copying : Mutant → List Text → Option T.Tree → Option MutantStatus
  unfolding linked_items directory
  from_copying m [] d = from_linking m linked_items d
  from_copying m (x ∷ xs) d = and_then (T.copy x (directory T d)) (λ u. from_copying m xs (some u))

  unfoldable pub test_mutant : Mutant → Option T.Tree → Option MutantStatus
  unfolding test_items directory
  test_mutant m d = if T.ensures d then from_copying m test_items (some (directory T d)) else none
