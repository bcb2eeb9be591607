-- ===== src/BytecodeComparison/Tests.antt =====
-- A build of an interface and a contract, and a chain on which one address runs the contract and the
-- other addresses have no code.
use arb_bridge_peripherals.Base.{
  ◌≡◌, refl, inr, All, some, none, List, [], ◌∷◌, ◌++◌, Text, codes, ok, ◌===◌, if◌then◌else◌,
}
use arb_bridge_peripherals.BytecodeComparison.{
  Build, MatchLine, matches, split_at_commas, compare_address, compare_bytecode, trim, is_blank,
  trim_start, trim_end,
}
use arb_bridge_peripherals.BytecodeComparison.Outcomes.{IsReadable}
use arb_bridge_peripherals.BytecodeComparison.Addresses.{
  Explained, compare_bytecode-Explained, compare_address-no_code,
}

abbrev small_build : Build
small_build = record {
  artifact_paths = some (codes "IGateway.json" ∷ codes "Gateway.json" ∷ []);
  artifact = λ path. some (record {
    deployed_bytecode = if path === codes "IGateway.json" then codes "0x" else codes "0x60";
    contract_name = path;
  });
  get_code = λ a. some (if a === codes "0xaa" then codes "0x60" else codes "0x");
  keccak256 = λ code. some code;
  contract_information = λ _. none;
}

readable : All (IsReadable small_build) (codes "IGateway.json" ∷ codes "Gateway.json" ∷ [])
unfolding ◌===◌
readable = (
  (
    record { deployed_bytecode = codes "0x"; contract_name = codes "IGateway.json" },
    refl,
    inr (codes "0x", refl),
  ),
  (
    (
      record { deployed_bytecode = codes "0x60"; contract_name = codes "Gateway.json" },
      refl,
      inr (codes "0x60", refl),
    ),
    tt,
  ),
)

compare_bytecode-Explained_example :
    (lines : List MatchLine) × (compare_bytecode small_build (codes "0xaa, 0xbb") []
      ≡ (ok tt, [] ++ lines))
    × Explained small_build
        (codes "IGateway.json" ∷ codes "Gateway.json" ∷ [])
        (split_at_commas (codes "0xaa, 0xbb"))
        lines
unfolding split_at_commas trim is_blank trim_start trim_end ◌===◌
compare_bytecode-Explained_example =
    compare_bytecode-Explained small_build (codes "0xaa, 0xbb")
      (codes "IGateway.json" ∷ codes "Gateway.json" ∷ []) [] refl readable
      ((codes "0x60", codes "0x60", refl, refl), ((codes "0x", codes "0x", refl, refl), tt))

compare_address-no_code_example :
    (name : Text) × (compare_address small_build
        (codes "IGateway.json" ∷ codes "Gateway.json" ∷ [])
        (codes "0xbb")
        []
      ≡ (ok tt, [] ++ matches (trim (codes "0xbb")) name ∷ []))
unfolding trim is_blank trim_start trim_end ◌===◌
compare_address-no_code_example =
    compare_address-no_code small_build (codes "IGateway.json" ∷ codes "Gateway.json" ∷ []) []
      (codes "Gateway.json" ∷ []) (codes "IGateway.json") (codes "0xbb") (codes "0x")
      (record { deployed_bytecode = codes "0x"; contract_name = codes "IGateway.json" }) [] readable
      refl refl refl refl refl
