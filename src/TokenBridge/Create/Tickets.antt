-- ===== src/TokenBridge/Create/Tickets.antt =====
-- The tickets that `createTokenBridge` waits for.
use arb_bridge_peripherals.Base.{
  ℕ, zero, suc, ◌+◌, ◌∙◌, sym, ap, subst, length, pure-value, ◌≡◌, refl, true, ◌&&◌, some, List, [],
  ◌∷◌, Text, ok, bind-eq-ok, ask-eq-ok, if◌then◌else◌, pure, exit, effects, arith,
}
use arb_bridge_peripherals.Chain.Types.{Status}
use arb_bridge_peripherals.Chain.{Network, World, wait_for_status}
use arb_bridge_peripherals.TokenBridge.Create.{first_two, await_tickets, wait_all, is_redeemed}

redeemed_lem : (s : Status) → is_redeemed s ≡ true → s ≡ Status.redeemed
unfolding is_redeemed
redeemed_lem Status.redeemed h = refl
redeemed_lem Status.not_yet_created h = cc
redeemed_lem Status.creation_failed h = cc
redeemed_lem Status.funds_deposited_on_l2 h = cc
redeemed_lem Status.expired h = cc

goes_on :
    {S : Type 0} (a b : Status) (s : S) {t : S}
    → (if is_redeemed a && is_redeemed b then pure tt else exit) s ≡ (ok tt, t)
    → (a ≡ Status.redeemed) × (b ≡ Status.redeemed) × (s ≡ t)
unfolding effects
goes_on a b s h = ground (arith, redeemed_lem a, redeemed_lem b)

pair_of :
    (l : List Status) {a b : Status}
    → first_two l ≡ some (a, b)
    → (rest : List Status) × (l ≡ a ∷ b ∷ rest)
pair_of [] h = cc
pair_of (x ∷ []) h = cc
pair_of (x ∷ y ∷ rest) h = (rest, cc)

module _ (N : Network) where
  abbrev pub Answer : Text → ℕ → Status → Type 0
  Answer tx i s = (u : World N) × (v : World N) × (wait_for_status N tx i u ≡ (ok s, v))

  -- The answers of the tickets from the i-th on, each asked for by its position.
  abbrev Answered : Text → ℕ → List Status → Type 0
  Answered tx i [] = Unit
  Answered tx i (s ∷ ss) = Answer tx i s × Answered tx (i + 1) ss

  wait_all-Answered :
      (tx : Text) (i n : ℕ) (w : World N) {ss : List Status} {t : World N}
      → wait_all N tx i n w ≡ (ok ss, t)
      → (length ss ≡ n) × Answered tx i ss
  unfolding wait_all
  wait_all-Answered tx i zero w h =
      subst (λ l. (length l ≡ 0) × Answered tx i l) (pure-value [] w h) (refl, tt)
  wait_all-Answered tx i (suc n) w h =
      let (s, u, e, h₁) = bind-eq-ok _ _ w h in
      let (rest, v, e₁, h₂) = bind-eq-ok _ _ u h₁ in
      let (len, all) = wait_all-Answered tx (i + 1) n u e₁ in
      subst (λ l. (length l ≡ suc n) × Answered tx i l) (pure-value (s ∷ rest) v h₂)
        (ap suc len, ((w, u, e), all))

  -- The wait lets the run go on only if the transaction has made at least two tickets, and the waits for
  -- the first and for the second have each told that it is redeemed.
  pub await_tickets-redeemed :
      (tx : Text) (w : World N) {t : World N}
      → await_tickets N tx w ≡ (ok tt, t)
      → (n : ℕ) × (N.message_count tx w.chain ≡ some (suc (suc n)))
        × Answer tx 0 Status.redeemed
        × Answer tx 1 Status.redeemed
  unfolding await_tickets
  await_tickets-redeemed tx w {t} h =
      let (n, u, e, r) = bind-eq-ok _ _ w h in
      let (results, v, e₁, r₁) = bind-eq-ok _ _ u r in
      let ((a, b), x, e₂, r₂) = bind-eq-ok _ _ v r₁ in
      let (count, same) = ask-eq-ok _ w e in
      let (pair, same') = ask-eq-ok _ v e₂ in
      let (rest, all) = pair_of results pair in
      let (ra, rb, same'') = goes_on a b x r₂ in
      let (len, seen) = wait_all-Answered tx 0 n u e₁ in
      let (first, (second, _)) = subst (λ l. Answered tx 0 l) all seen in
      (
        length rest,
        count ∙ ap some (sym len ∙ ap length all),
        subst (λ y. Answer tx 0 y) ra first,
        subst (λ y. Answer tx 1 y) rb second,
      )
