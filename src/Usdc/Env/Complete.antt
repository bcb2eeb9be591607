-- ===== src/Usdc/Env/Complete.antt =====
-- `_checkEnvVars` against the list of the variables.
use arb_bridge_peripherals.Base.{
  ◌≡◌, ◌↔◌, ◌∷◌, refl, true, ℕ, some, Text, ok, guards-ok, guards-pass, false, String, Option, none,
  [],
}
use arb_bridge_peripherals.Usdc.Env.{Env, is_missing, required_env_vars, check_env_vars}

-- A variable that has a value, which is not empty.
abbrev pub HasValue : Env → String → Type 0
HasValue env name = (c : ℕ) × (rest : Text) × (env name ≡ some (c ∷ rest))

HasValue-is_missing : (env : Env) (name : String) → is_missing env name ≡ false → HasValue env name
HasValue-is_missing env name h = at (env name) h
  where
    at :
        (o : Option Text)
        → (elim o [ none ↦ true | some v ↦ elim v [ [] ↦ true | c ∷ cs ↦ false ] ]) ≡ false
        → (c : ℕ) × (rest : Text) × (o ≡ some (c ∷ rest))
    at none h = cc
    at (some []) h = cc
    at (some (c ∷ cs)) h = (c, cs, refl)

is_missing-HasValue : (env : Env) (name : String) → HasValue env name → is_missing env name ≡ false
is_missing-HasValue env name (c, rest, e) = rw (is_missing, e) refl

-- The check ends well, and with the state as it was, exactly when each of the eight variables has a value
-- that is not empty.
pub check_env_vars-Complete :
    {S : Type 0} (env : Env) (s : S)
    → (check_env_vars env s ≡ (ok tt, s)) ↔ (
        HasValue env "PARENT_RPC"
        × HasValue env "PARENT_DEPLOYER_KEY"
        × HasValue env "CHILD_RPC"
        × HasValue env "CHILD_DEPLOYER_KEY"
        × HasValue env "L1_ROUTER"
        × HasValue env "L2_ROUTER"
        × HasValue env "INBOX"
        × HasValue env "L1_USDC")
unfolding check_env_vars
check_env_vars-Complete env s = (
  λ h.
      let (a, (b, (c, (d, (e, (f, (g, (i, _)))))))) = guards-ok _ _ required_env_vars s h in
      (set a, set b, set c, set d, set e, set f, set g, set i),
  λ (a, b, c, d, e, f, g, i). guards-pass _ _ required_env_vars s (
    is_missing-HasValue env _ a,
    (
      is_missing-HasValue env _ b,
      (
        is_missing-HasValue env _ c,
        (
          is_missing-HasValue env _ d,
          (
            is_missing-HasValue env _ e,
            (
              is_missing-HasValue env _ f,
              (is_missing-HasValue env _ g, (is_missing-HasValue env _ i, tt)),
            ),
          ),
        ),
      ),
    ),
  ),
)
  where
    set : {name : String} → is_missing env name ≡ false → HasValue env name
    set {name} h = HasValue-is_missing env name h
