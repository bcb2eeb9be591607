-- ===== src/BytecodeComparison/Outcomes.antt =====
-- What the lines that the task prints say of the build and of the chain.
use arb_bridge_peripherals.Base.{
  ◌≡◌, refl, sym, ap, ◌∙◌, ◌⊎◌, inl, inr, Bool, true, false, none, some, List, [], ◌∷◌, ◌++◌, All,
  Text, ok, Script, pure, modify, ◌>>◌, ℕ, ◌===◌, ===_sound, ===_refl, if◌then◌else◌, ask, bind-ok,
  ask-some, effects,
}
use arb_bridge_peripherals.BytecodeComparison.{
  BuildArtifact, Build, MatchLine, matches, matches_without_arguments, no_match, trim,
  without_prefix, print, compare_code, compare_artifacts,
}

module _ (B : Build) where
  -- An artifact that can be read, and hashed if it has a code.
  abbrev pub IsReadable : Text → Type 0
  IsReadable path =
      (a : BuildArtifact) × (B.artifact path ≡ some a)
      × ((a.deployed_bytecode ≡ []) ⊎ ((h : Text) × (B.keccak256 a.deployed_bytecode ≡ some h)))

  -- The artifact at a path has a code of this hash.
  abbrev pub Has : Text → Text → Text → Type 0
  Has hash name path =
      (a : BuildArtifact) × (B.artifact path ≡ some a)
      × (a.contract_name ≡ name)
      × (a.deployed_bytecode ≡ [] → ⊥)
      × (B.keccak256 a.deployed_bytecode ≡ some hash)

  abbrev pub Lacks : Text → Text → Type 0
  Lacks hash path = (name : Text) → Has hash name path → ⊥

  -- The first artifact with a code of this hash has this name.
  abbrev pub IsFirst : Text → Text → List Text → Type 0
  IsFirst hash name paths =
      (before after : List Text) × (path : Text) × (paths ≡ before ++ path ∷ after)
      × All (Lacks hash) before
      × Has hash name path

  abbrev pub Explains : List Text → Text → MatchLine → Type 0
  Explains paths addr line =
      (code hash : Text) × (B.get_code (trim addr) ≡ some code)
      × (B.keccak256 code ≡ some hash)
      × elim line as (λ _. Type 0) [
        | matches a name ↦ (a ≡ trim addr) × IsFirst hash name paths
        | matches_without_arguments a name ↦
            (a ≡ trim addr)
            × All (Lacks hash) paths
            × (B.contract_information (without_prefix code) ≡ some name)
        | no_match a ↦
            (a ≡ trim addr)
            × All (Lacks hash) paths
            × (B.contract_information (without_prefix code) ≡ none)
      ]

  -- One code compared: it is the one that is searched for, or the search goes on.
  compare_code-lem :
      (addr hash name local : Text) (c : ℕ) (cs : Text) (rest : Script (List MatchLine) Bool)
      (s : List MatchLine)
      → B.keccak256 (c ∷ cs) ≡ some local
      → compare_code B addr hash name (c ∷ cs) rest s
        ≡ (if hash === local then (ok true, s ++ matches (trim addr) name ∷ []) else rest s)
  unfolding compare_code print effects
  compare_code-lem addr hash name local c cs rest s e =
      bind-ok (ask (λ _. B.keccak256 (c ∷ cs)))
        (λ x. if hash === x then print (matches (trim addr) name) >> pure true else rest) s local s
        (ask-some (λ _. B.keccak256 (c ∷ cs)) s local e)
      ∙ at (hash === local)
    where
      at :
          (b : Bool)
          → (if b
                then modify (λ lines. lines ++ matches (trim addr) name ∷ []) >> pure true
                else rest)
              s
            ≡ (if b then (ok true, s ++ matches (trim addr) name ∷ []) else rest s)
      at true = refl
      at false = refl

  compare_code-none :
      (addr hash name : Text) (s : List MatchLine) (rest : Script (List MatchLine) Bool)
      → compare_code B addr hash name [] rest s ≡ rest s
  unfolding compare_code
  compare_code-none addr hash name s rest = refl

  compare_artifacts-step :
      (addr hash path : Text) (paths : List Text) (a : BuildArtifact) (s : List MatchLine)
      → B.artifact path ≡ some a
      → compare_artifacts B addr hash (path ∷ paths) s
        ≡ compare_code B addr hash a.contract_name a.deployed_bytecode
            (compare_artifacts B addr hash paths)
            s
  unfolding compare_artifacts
  compare_artifacts-step addr hash path paths a s e =
      bind-ok (ask (λ _. B.artifact path)) _ s a s (ask-some (λ _. B.artifact path) s a e)

  -- How a search among the artifacts ends.
  abbrev pub Search : Text → Text → List Text → List MatchLine → Type 0
  Search addr hash paths s =
      ((name : Text) × (compare_artifacts B addr hash paths s
          ≡ (ok true, s ++ matches (trim addr) name ∷ []))
        × IsFirst hash name paths)
      ⊎ ((compare_artifacts B addr hash paths s ≡ (ok false, s)) × All (Lacks hash) paths)

  -- An artifact that was passed over.
  Search-cons :
      (addr hash path : Text) (paths : List Text) (s : List MatchLine)
      → compare_artifacts B addr hash (path ∷ paths) s ≡ compare_artifacts B addr hash paths s
      → Lacks hash path
      → Search addr hash paths s
      → Search addr hash (path ∷ paths) s
  Search-cons addr hash path paths s e lacks (inl (name, run, (before, after, p, eq, h, has))) =
      inl (name, e ∙ run, (path ∷ before, after, p, ap (λ ps. path ∷ ps) eq, (lacks, h), has))
  Search-cons addr hash path paths s e lacks (inr (run, h)) = inr (e ∙ run, (lacks, h))

  Lacks-empty :
      (hash path : Text) (a : BuildArtifact)
      → B.artifact path ≡ some a
      → a.deployed_bytecode ≡ []
      → Lacks hash path
  Lacks-empty hash path a e empty = λ name (b, eb, _, nonempty, _).
      nonempty (ap BuildArtifact.deployed_bytecode (same e eb) ∙ empty)
    where
      same : {b : BuildArtifact} → B.artifact path ≡ some a → B.artifact path ≡ some b → b ≡ a
      same f g = cc

  Lacks-other :
      (hash local path : Text) (a : BuildArtifact)
      → B.artifact path ≡ some a
      → B.keccak256 a.deployed_bytecode ≡ some local
      → (hash === local) ≡ false
      → Lacks hash path
  Lacks-other hash local path a e h differ =
      λ name (b, eb, _, _, hb). cc (===_refl hash, differ, e, eb, h, hb)

  pub Search-artifacts :
      (addr hash : Text) (paths : List Text) (s : List MatchLine)
      → All IsReadable paths
      → Search addr hash paths s
  unfolding compare_artifacts pure
  Search-artifacts addr hash [] s _ = inr (refl, tt)
  Search-artifacts addr hash (path ∷ paths) s ((a, e, readable), others) =
      with_code a.deployed_bytecode refl readable (Search-artifacts addr hash paths s others)
    where
      step :
          (code : Text)
          → a.deployed_bytecode ≡ code
          → compare_artifacts B addr hash (path ∷ paths) s
            ≡ compare_code B addr hash a.contract_name code (compare_artifacts B addr hash paths) s
      step code h =
          compare_artifacts-step addr hash path paths a s e
          ∙ ap
              (λ x.
                compare_code B addr hash a.contract_name x (compare_artifacts B addr hash paths) s)
              h

      with_code :
          (code : Text)
          → a.deployed_bytecode ≡ code
          → ((a.deployed_bytecode ≡ []) ⊎ ((h : Text) × (B.keccak256 a.deployed_bytecode ≡ some h)))
          → Search addr hash paths s
          → Search addr hash (path ∷ paths) s
      with_code [] empty _ rest =
          Search-cons addr hash path paths s
            (step [] empty
              ∙ compare_code-none addr hash a.contract_name s (compare_artifacts B addr hash paths))
            (Lacks-empty hash path a e empty) rest
      with_code (c ∷ cs) nonempty (inl empty) rest = cc
      with_code (c ∷ cs) nonempty (inr (local, h)) rest = compared (hash === local) refl
        where
          hashed : B.keccak256 (c ∷ cs) ≡ some local
          hashed = sym (ap B.keccak256 nonempty) ∙ h

          run : compare_artifacts B addr hash (path ∷ paths) s ≡ (
              if hash === local
              then (ok true, s ++ matches (trim addr) a.contract_name ∷ [])
              else compare_artifacts B addr hash paths s)
          run =
              step (c ∷ cs) nonempty
              ∙ compare_code-lem addr hash a.contract_name local c cs
                  (compare_artifacts B addr hash paths) s hashed

          at :
              (b : Bool)
              → (hash === local) ≡ b
              → compare_artifacts B addr hash (path ∷ paths) s ≡ (
                  if b
                  then (ok true, s ++ matches (trim addr) a.contract_name ∷ [])
                  else compare_artifacts B addr hash paths s)
          at b eb =
              run
              ∙ ap
                  (λ x.
                    if x
                    then (ok true, s ++ matches (trim addr) a.contract_name ∷ [])
                    else compare_artifacts B addr hash paths s)
                  eb

          compared : (b : Bool) → (hash === local) ≡ b → Search addr hash (path ∷ paths) s
          compared true eb = inl (
            a.contract_name,
            at true eb,
            (
              [],
              paths,
              path,
              refl,
              tt,
              (a, e, refl, (λ empty. cc (empty, nonempty)), cc (===_sound hash local eb, h)),
            ),
          )
          compared false eb =
              Search-cons addr hash path paths s (at false eb)
                (Lacks-other hash local path a e h eb) rest
