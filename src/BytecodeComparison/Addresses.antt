-- ===== src/BytecodeComparison/Addresses.antt =====
-- The task from its addresses to what it prints.
use arb_bridge_peripherals.Base.{
  ◌≡◌, refl, sym, ap, ◌∙◌, inl, inr, Bool, true, false, not, Option, none, some, List, [], ◌∷◌,
  ◌++◌, All-append-right, subst, append-nil, append_assoc, All, Text, ◌>>=◌, codes, ok, ask,
  bind-ok, ask-some, when, when-true, when-false, effects, Result, err, Script, for_each,
}
use arb_bridge_peripherals.BytecodeComparison.{
  BuildArtifact, Build, MatchLine, matches, matches_without_arguments, no_match, split_at_commas,
  trim, without_prefix, print, compare_artifacts, search_information, compare_address,
  compare_bytecode,
}
use arb_bridge_peripherals.BytecodeComparison.Outcomes.{
  IsReadable, Has, Lacks, Explains, Search, Search-artifacts,
}

module _ (B : Build) where
  -- An address whose code can be read and hashed.
  abbrev pub IsKnown : Text → Type 0
  IsKnown addr =
      (code hash : Text) × (B.get_code (trim addr) ≡ some code) × (B.keccak256 code ≡ some hash)

  -- One line for each address, in their order.
  unfoldable pub Explained : List Text → List Text → List MatchLine → Type 0
  Explained paths [] [] = Unit {0}
  Explained paths [] (l ∷ ls) = ⊥
  Explained paths (a ∷ addrs) [] = ⊥
  Explained paths (a ∷ addrs) (l ∷ ls) = Explains B paths a l × Explained paths addrs ls

  information-some :
      (addr code name : Text) (s : List MatchLine)
      → B.contract_information (without_prefix code) ≡ some name
      → search_information B addr code s
        ≡ (ok tt, s ++ matches_without_arguments (trim addr) name ∷ [])
  unfolding search_information print effects
  information-some addr code name s e = rw e

  information-none :
      (addr code : Text) (s : List MatchLine)
      → B.contract_information (without_prefix code) ≡ none
      → search_information B addr code s ≡ (ok tt, s ++ no_match (trim addr) ∷ [])
  unfolding search_information print effects
  information-none addr code s e = rw e

  compare_address-search :
      (paths : List Text) (addr code hash : Text) (s t : List MatchLine) (b : Bool)
      → B.get_code (trim addr) ≡ some code
      → B.keccak256 code ≡ some hash
      → compare_artifacts B addr hash paths s ≡ (ok b, t)
      → compare_address B paths addr s ≡ when (not b) (search_information B addr code) t
  unfolding compare_address
  compare_address-search paths addr code hash s t b e h run =
      bind-ok (ask (λ _. B.get_code (trim addr))) hashed s code s
        (ask-some (λ _. B.get_code (trim addr)) s code e)
      ∙ bind-ok (ask (λ _. B.keccak256 code)) (compared code) s hash s
          (ask-some (λ _. B.keccak256 code) s hash h)
      ∙ bind-ok (compare_artifacts B addr hash paths)
          (λ m. when (not m) (search_information B addr code)) s b t run
    where
      compared : Text → Text → Script (List MatchLine) (Unit {0})
      compared c x =
          compare_artifacts B addr x paths >>= λ m. when (not m) (search_information B addr c)

      hashed : Text → Script (List MatchLine) (Unit {0})
      hashed c = ask (λ _. B.keccak256 c) >>= compared c

  compare_address-Explains :
      (paths : List Text) (addr : Text) (s : List MatchLine)
      → All (IsReadable B) paths
      → IsKnown addr
      → (line : MatchLine) × (compare_address B paths addr s ≡ (ok tt, s ++ line ∷ []))
        × Explains B paths addr line
  compare_address-Explains paths addr s readable (code, hash, e, h) =
      at (Search-artifacts B addr hash paths s readable)
    where
      missed :
          compare_artifacts B addr hash paths s ≡ (ok false, s)
          → compare_address B paths addr s ≡ search_information B addr code s
      missed run =
          compare_address-search paths addr code hash s s false e h run
          ∙ when-true true (search_information B addr code) s refl

      unmatched :
          compare_artifacts B addr hash paths s ≡ (ok false, s)
          → All (Lacks B hash) paths
          → (o : Option Text) → B.contract_information (without_prefix code) ≡ o
          → (line : MatchLine) × (compare_address B paths addr s ≡ (ok tt, s ++ line ∷ []))
            × Explains B paths addr line
      unmatched run lacks none i = (
        no_match (trim addr),
        missed run ∙ information-none addr code s i,
        (code, hash, e, h, (refl, lacks, i)),
      )
      unmatched run lacks (some name) i = (
        matches_without_arguments (trim addr) name,
        missed run ∙ information-some addr code name s i,
        (code, hash, e, h, (refl, lacks, i)),
      )

      at :
          Search B addr hash paths s
          → (line : MatchLine) × (compare_address B paths addr s ≡ (ok tt, s ++ line ∷ []))
            × Explains B paths addr line
      at (inl (name, run, first)) = (
        matches (trim addr) name,
        compare_address-search paths addr code hash s (s ++ matches (trim addr) name ∷ []) true e h
              run
            ∙ when-false false (search_information B addr code) (s ++ matches (trim addr) name ∷ [])
                refl,
        (code, hash, e, h, (refl, first)),
      )
      at (inr (run, lacks)) =
          unmatched run lacks (B.contract_information (without_prefix code)) refl

  for_each-ok :
      (f : Text → Script (List MatchLine) (Unit {0})) (x : Text) (xs : List Text)
      (s t : List MatchLine)
      → f x s ≡ (ok tt, t)
      → for_each f (x ∷ xs) s ≡ for_each f xs t
  unfolding for_each
  for_each-ok f x xs s t e =
      ap
        (λ (p : Result (Unit {0}) × List MatchLine).
          elim p.0 as (λ _. Result (Unit {0}) × List MatchLine) [
            | ok _ ↦ for_each f xs p.1
            | err y ↦ (err y, p.1)
          ])
        e

  compare_addresses :
      (paths addrs : List Text) (s : List MatchLine)
      → All (IsReadable B) paths
      → All IsKnown addrs
      → (lines : List MatchLine) × (for_each (compare_address B paths) addrs s
          ≡ (ok tt, s ++ lines))
        × Explained paths addrs lines
  unfolding for_each Explained
  compare_addresses paths [] s readable known = ([], ap (λ t. (ok tt, t)) (sym (append-nil s)), tt)
  compare_addresses paths (a ∷ addrs) s readable (k, ks) =
      at (compare_address-Explains paths a s readable k)
        (λ t. compare_addresses paths addrs t readable ks)
    where
      at :
          ((line : MatchLine) × (compare_address B paths a s ≡ (ok tt, s ++ line ∷ []))
            × Explains B paths a line)
          → ((t : List MatchLine)
              → (lines : List MatchLine) × (for_each (compare_address B paths) addrs t
                  ≡ (ok tt, t ++ lines))
                × Explained paths addrs lines)
          → (lines : List MatchLine) × (for_each (compare_address B paths) (a ∷ addrs) s
              ≡ (ok tt, s ++ lines))
            × Explained paths (a ∷ addrs) lines
      at (line, run, h) others = (
        line ∷ (others (s ++ line ∷ [])).0,
        for_each-ok (compare_address B paths) a addrs s (s ++ line ∷ []) run
            ∙ (others (s ++ line ∷ [])).1
            ∙ ap (λ t. (ok tt, t)) (append_assoc s (line ∷ []) (others (s ++ line ∷ [])).0),
        (h, (others (s ++ line ∷ [])).2),
      )

  -- If every artifact of the build can be read and hashed, and the code at every address as well, the
  -- task ends well and prints one line for each address, in their order: the name of the first
  -- artifact whose code has the hash of the address's code, or, only if there is none, what the search
  -- of the verification plugin finds, or that nothing matches.
  pub compare_bytecode-Explained :
      (contract_addrs : Text) (paths : List Text) (s : List MatchLine)
      → B.artifact_paths ≡ some paths
      → All (IsReadable B) paths
      → All IsKnown (split_at_commas contract_addrs)
      → (lines : List MatchLine) × (compare_bytecode B contract_addrs s ≡ (ok tt, s ++ lines))
        × Explained paths (split_at_commas contract_addrs) lines
  unfolding compare_bytecode
  compare_bytecode-Explained contract_addrs paths s e readable known =
      let (lines, run, h) =
        compare_addresses paths (split_at_commas contract_addrs) s readable known in
      (
        lines,
        bind-ok (ask (λ _. B.artifact_paths))
              (λ ps. for_each (compare_address B ps) (split_at_commas contract_addrs)) s paths s
              (ask-some (λ _. B.artifact_paths) s paths e)
            ∙ run,
        h,
      )

  -- If every artifact can be read and hashed, and one of them has the code `0x`, as that of an
  -- interface, then an address that has no code is said to match a contract of the build.
  pub compare_address-no_code :
      (paths before after : List Text) (path addr hash : Text) (a : BuildArtifact)
      (s : List MatchLine)
      → All (IsReadable B) paths
      → paths ≡ before ++ path ∷ after
      → B.artifact path ≡ some a
      → a.deployed_bytecode ≡ codes "0x"
      → B.get_code (trim addr) ≡ some (codes "0x")
      → B.keccak256 (codes "0x") ≡ some hash
      → (name : Text) × (compare_address B paths addr s
          ≡ (ok tt, s ++ matches (trim addr) name ∷ []))
  compare_address-no_code paths before after path addr hash a s readable eq e code known h =
      at (Search-artifacts B addr hash paths s readable)
    where
      has : Has B hash a.contract_name path
      has = (a, e, refl, (λ empty. cc (empty, code)), ap B.keccak256 code ∙ h)

      at :
          Search B addr hash paths s
          → (name : Text) × (compare_address B paths addr s
              ≡ (ok tt, s ++ matches (trim addr) name ∷ []))
      at (inl (name, run, first)) = (
        name,
        compare_address-search paths addr (codes "0x") hash s (s ++ matches (trim addr) name ∷ [])
              true known h run
            ∙ when-false false (search_information B addr (codes "0x"))
                (s ++ matches (trim addr) name ∷ []) refl,
      )
      at (inr (run, lacks)) = absurd (
          (All-append-right (Lacks B hash) before (path ∷ after)
              (subst (All (Lacks B hash)) eq lacks)).0
            a.contract_name has)
