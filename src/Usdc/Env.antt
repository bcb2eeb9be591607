-- ===== src/Usdc/Env.antt =====
-- The environment variables, and `_checkEnvVars`.
pub mod Complete
use arb_bridge_peripherals.Base.{
  String, ◌<>◌, Option, none, some, Bool, true, false, List, [], ◌∷◌, Text, Script, throw_if,
  for_each, if◌then◌else◌, ◌≡◌, refl, Result, ok, err, thrown, All, arith, ◌≢◌,
}

-- `process.env`
abbrev pub Env : Type 0
Env = String → Option Text

-- `!process.env[name]`: unset or empty
abbrev pub is_missing : Env → String → Bool
is_missing env name = elim (env name) [
  | none ↦ true
  | some value ↦ elim value [ [] ↦ true | c ∷ cs ↦ false ]
]

abbrev pub required_env_vars : List String
required_env_vars =
    "PARENT_RPC" ∷ "PARENT_DEPLOYER_KEY" ∷ "CHILD_RPC" ∷ "CHILD_DEPLOYER_KEY" ∷ "L1_ROUTER"
    ∷ "L2_ROUTER" ∷ "INBOX" ∷ "L1_USDC" ∷ []

unfoldable pub check_env_vars : {S : Type 0} → Env → Script S (Unit {0})
check_env_vars env =
    for_each (λ env_var. throw_if (is_missing env env_var) ("Missing env var " <> env_var))
      required_env_vars

-- The variables that the steps after the check read.
pub record Settings : Type 0 where
  pub l1_router : Text
  pub l2_router : Text
  pub l1_usdc : Text

-- `process.env[name] as string`, which the check has found to be there
abbrev pub value_of : Env → String → Text
value_of env name = elim (env name) [ none ↦ [] | some value ↦ value ]

unfoldable pub settings_of : Env → Settings
settings_of env = record {
  l1_router = value_of env "L1_ROUTER";
  l2_router = value_of env "L2_ROUTER";
  l1_usdc = value_of env "L1_USDC";
}

-- The rollup owner's key is optional.
unfoldable pub rollup_owner_key : Env → Option Text
rollup_owner_key env = if is_missing env "ROLLUP_OWNER_KEY" then none else env "ROLLUP_OWNER_KEY"
