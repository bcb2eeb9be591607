-- ===== src/MutationTester/Turns.antt =====
-- What a turn does to the tests of a batch.
use arb_bridge_peripherals.Base.{
  ℕ, zero, suc, ◌≡◌, refl, sym, ap, subst, ◌∙◌, Bool-cases, inl, inr, Option, none, some, List, [],
  ◌∷◌, map, Text, if◌then◌else◌, ◌===◌, ===_sound, ===_refl, All, All-map, ◌≢◌, arith,
}
use arb_bridge_peripherals.MutationTester.{
  Mutant, MutantStatus, Tools, Phase, ensuring, copying, linking, replacing, building, testing,
  removing, fulfilled, rejected, advance, directory, on_tree, on_command, test_items, linked_items,
}
use arb_bridge_peripherals.MutationTester.Alone.{
  test_mutant, from_removing, from_testing, from_building, from_replacing, from_linking,
  from_copying,
}
use arb_bridge_peripherals.MutationTester.Batches.{Task, Env, put, turn, take_turn, interleave}

-- Different ids, hence different directories.
abbrev pub Distinct : List Mutant → Type 0
Distinct [] = Unit
Distinct (m ∷ ms) = All (λ (n : Mutant). m.id ≢ n.id × n.id ≢ m.id) ms × Distinct ms

module _ (T : Tools) where
  abbrev pub remaining : Mutant → Phase → Option T.Tree → Option MutantStatus
  remaining m ensuring d = test_mutant T m d
  remaining m (copying xs) d = from_copying T m xs d
  remaining m (linking xs) d = from_linking T m xs d
  remaining m replacing d = from_replacing T m d
  remaining m building d = from_building T d
  remaining m testing d = from_testing T d
  remaining m (removing s) d = from_removing T s d
  remaining m (fulfilled s) d = some s
  remaining m rejected d = none

  remaining-advance :
      (m : Mutant) (p : Phase) (d : Option T.Tree)
      → remaining m (advance T m p d).0 (advance T m p d).1 ≡ remaining m p d
  unfolding advance test_mutant test_items linked_items directory on_tree on_command
  remaining-advance m ensuring d = ground arith
  remaining-advance m (copying []) d = refl
  remaining-advance m (copying (x ∷ xs)) d = ground arith
  remaining-advance m (linking []) d = refl
  remaining-advance m (linking (x ∷ xs)) none = refl
  remaining-advance m (linking (x ∷ xs)) (some t) = ground arith
  remaining-advance m replacing none = refl
  remaining-advance m replacing (some t) = ground arith
  remaining-advance m building none = refl
  remaining-advance m building (some t) = ground arith
  remaining-advance m testing none = refl
  remaining-advance m testing (some t) = ground arith
  remaining-advance m (removing s) d = ground arith
  remaining-advance m (fulfilled s) d = refl
  remaining-advance m rejected d = refl

  abbrev pub mutants : List Task → List Mutant
  mutants = map (λ (t : Task). t.0)

  abbrev pub statuses : Env T → List Task → List (Option MutantStatus)
  statuses e = map (λ (t : Task). remaining t.0 t.1 (e t.0.id))

  put_same : (k : Text) (d : Option T.Tree) (e : Env T) → put T k d e k ≡ d
  unfolding put
  put_same k d e = ap (λ b. if b then d else e k) (===_refl k)

  put_other : (k j : Text) (d : Option T.Tree) (e : Env T) → k ≢ j → put T k d e j ≡ e j
  unfolding put
  put_other k j d e other = elim (Bool-cases (j === k)) [
    | inl same ↦ absurd (other (sym (===_sound j k same)))
    | inr b ↦ ap (λ b. if b then d else e j) b
  ]

  pub statuses-agree :
      (e f : Env T) (ts : List Task)
      → All (λ (m : Mutant). e m.id ≡ f m.id) (mutants ts)
      → statuses e ts ≡ statuses f ts
  statuses-agree e f [] h = refl
  statuses-agree e f ((m, p) ∷ ts) h = cc (h.0, statuses-agree e f ts h.1)

  take_turn-mutants :
      (k : ℕ) (ts : List Task) (e : Env T) → mutants (take_turn T k ts e).0 ≡ mutants ts
  unfolding take_turn turn
  take_turn-mutants k [] e = refl
  take_turn-mutants zero (t ∷ ts) e = refl
  take_turn-mutants (suc k) (t ∷ ts) e = ap (λ ms. t.0 ∷ ms) (take_turn-mutants k ts e)

  take_turn-env :
      (k : ℕ) (ts : List Task) (e : Env T) (j : Text)
      → All (λ (m : Mutant). m.id ≢ j) (mutants ts)
      → (take_turn T k ts e).1 j ≡ e j
  unfolding take_turn turn
  take_turn-env k [] e j h = refl
  take_turn-env zero ((m, p) ∷ ts) e j h = put_other m.id j (advance T m p (e m.id)).1 e h.0
  take_turn-env (suc k) (t ∷ ts) e j h = take_turn-env k ts e j h.1

  take_turn-statuses :
      (k : ℕ) (ts : List Task) (e : Env T)
      → Distinct (mutants ts)
      → statuses (take_turn T k ts e).1 (take_turn T k ts e).0 ≡ statuses e ts
  unfolding take_turn turn
  take_turn-statuses k [] e h = refl
  take_turn-statuses zero ((m, p) ∷ ts) e h = cc (
    put_same m.id (advance T m p (e m.id)).1 e,
    remaining-advance m p (e m.id),
    statuses-agree (put T m.id (advance T m p (e m.id)).1 e) e ts
        (All-map (mutants ts) (λ n d. put_other m.id n.id (advance T m p (e m.id)).1 e d.0) h.0),
  )
  take_turn-statuses (suc k) ((m, p) ∷ ts) e h = cc (
    take_turn-env k ts e m.id (All-map (mutants ts) (λ n d. d.1) h.0),
    take_turn-statuses k ts e h.1,
  )

  pub interleave-mutants :
      (ks : List ℕ) (ts : List Task) (e : Env T) → mutants (interleave T ks ts e).0 ≡ mutants ts
  unfolding interleave
  interleave-mutants [] ts e = refl
  interleave-mutants (k ∷ ks) ts e =
      interleave-mutants ks (take_turn T k ts e).0 (take_turn T k ts e).1 ∙ take_turn-mutants k ts e

  -- A mutant that is not in the batch keeps its directory.
  pub interleave-env :
      (ks : List ℕ) (ts : List Task) (e : Env T) (j : Text)
      → All (λ (m : Mutant). m.id ≢ j) (mutants ts)
      → (interleave T ks ts e).1 j ≡ e j
  unfolding interleave
  interleave-env [] ts e j h = refl
  interleave-env (k ∷ ks) ts e j h =
      interleave-env ks (take_turn T k ts e).0 (take_turn T k ts e).1 j
        (subst (All (λ (m : Mutant). m.id ≢ j)) (sym (take_turn-mutants k ts e)) h)
      ∙ take_turn-env k ts e j h

  -- What each test has still to find out on its own does not change.
  pub interleave-statuses :
      (ks : List ℕ) (ts : List Task) (e : Env T)
      → Distinct (mutants ts)
      → statuses (interleave T ks ts e).1 (interleave T ks ts e).0 ≡ statuses e ts
  unfolding interleave
  interleave-statuses [] ts e h = refl
  interleave-statuses (k ∷ ks) ts e h =
      interleave-statuses ks (take_turn T k ts e).0 (take_turn T k ts e).1
        (subst Distinct (sym (take_turn-mutants k ts e)) h)
      ∙ take_turn-statuses k ts e h
