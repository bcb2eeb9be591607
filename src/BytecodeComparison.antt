-- ===== src/BytecodeComparison.antt =====
-- The task `compareBytecode`, tasks/compareBytecode.ts: which contract of the build each of the given
-- addresses runs. Hardhat, the chain and the hash are the record `Build`, an argument of the task; the
-- state is what has been printed.
use arb_bridge_peripherals.Base.{
  ℕ, Bool, true, false, not, ◌||◌, ◌&&◌, Option, none, some, List, [], ◌∷◌, ◌++◌, Text, codes, drop,
  Script, pure, ask, modify, when, catch, for_each, ◌==◌, leb, ◌===◌, ◌>>=◌, ◌>>◌, if◌then◌else◌,
}
use arb_bridge_peripherals.Upgrades.Signer.{starts}
pub mod Outcomes
pub mod Addresses
mod Tests

-- A `deployedBytecode` that is missing or empty is the empty list.
pub record BuildArtifact : Type 0 where
  pub deployed_bytecode : Text
  pub contract_name : Text

-- `none` where a call raises an error.
pub record Build : Type 0 where
  pub artifact_paths : Option (List Text)
  pub artifact : Text → Option BuildArtifact
  pub get_code : Text → Option Text
  pub keccak256 : Text → Option Text
  -- the name that `TASK_VERIFY_GET_CONTRACT_INFORMATION` finds for a code without its prefix
  pub contract_information : Text → Option Text

-- What is printed, by the address.
pub data MatchLine : Type 0 where
  matches matches_without_arguments : Text → Text → MatchLine
  no_match : Text → MatchLine

-- `text.split(',')`
unfoldable pub split_at_commas : Text → List Text
split_at_commas [] = [] ∷ []
split_at_commas (c ∷ cs) =
    let rest = split_at_commas cs in
    if c == b','
    then [] ∷ rest
    else elim rest [ [] ↦ (c ∷ []) ∷ [] | part ∷ parts ↦ (c ∷ part) ∷ parts ]

unfoldable pub is_blank : ℕ → Bool
is_blank c = c == b' ' || (leb 9 c && leb c 13)

unfoldable pub trim_start : Text → Text
trim_start [] = []
trim_start (c ∷ cs) = let rest = trim_start cs in if is_blank c then rest else c ∷ cs

unfoldable pub trim_end : Text → Text
trim_end [] = []
trim_end (c ∷ cs) =
    let rest = trim_end cs in
    elim rest [ [] ↦ (if is_blank c then [] else c ∷ []) | d ∷ ds ↦ c ∷ d ∷ ds ]

unfoldable pub trim : Text → Text
unfolding trim_start trim_end
trim t = trim_end (trim_start t)

unfoldable pub without_prefix : Text → Text
without_prefix code = if starts (codes "0x") code then drop 2 code else code

abbrev pub Run : Type 0 → Type 0
Run A = Script (List MatchLine) A

unfoldable pub print : MatchLine → Run (Unit {0})
print line = modify (λ lines. lines ++ line ∷ [])

module _ (B : Build) where
  -- The code of one artifact, and the search in the artifacts after it.
  unfoldable pub compare_code : Text → Text → Text → Text → Run Bool → Run Bool
  compare_code contract_addr deployed_code_hash name [] rest = rest
  compare_code contract_addr deployed_code_hash name (c ∷ cs) rest = do
    local_code_hash ← ask (λ _. B.keccak256 (c ∷ cs))
    if deployed_code_hash === local_code_hash
        then print (matches (trim contract_addr) name) >> pure true
        else rest

  -- The loop over the artifacts; its value is `matchFound`.
  unfoldable pub compare_artifacts : Text → Text → List Text → Run Bool
  compare_artifacts contract_addr deployed_code_hash [] = pure false
  compare_artifacts contract_addr deployed_code_hash (path ∷ paths) =
      let rest = compare_artifacts contract_addr deployed_code_hash paths in
      ask (λ _. B.artifact path) >>= λ artifact.
      compare_code contract_addr deployed_code_hash artifact.contract_name
        artifact.deployed_bytecode rest

  -- The compiler's settings ignored: the search of the verification plugin.
  unfoldable pub search_information : Text → Text → Run (Unit {0})
  search_information contract_addr deployed_bytecode =
      catch
        (do
          name ← ask (λ _. B.contract_information (without_prefix deployed_bytecode))
          print (matches_without_arguments (trim contract_addr) name))
        (print (no_match (trim contract_addr)))

  unfoldable pub compare_address : List Text → Text → Run (Unit {0})
  unfolding compare_artifacts search_information
  compare_address paths contract_addr = do
    deployed_bytecode ← ask (λ _. B.get_code (trim contract_addr))
    deployed_code_hash ← ask (λ _. B.keccak256 deployed_bytecode)
    match_found ← compare_artifacts contract_addr deployed_code_hash paths
    when (not match_found) (search_information contract_addr deployed_bytecode)

  unfoldable pub compare_bytecode : Text → Run (Unit {0})
  unfolding compare_address
  compare_bytecode contract_addrs = do
    paths ← ask (λ _. B.artifact_paths)
    for_each (compare_address paths) (split_at_commas contract_addrs)
