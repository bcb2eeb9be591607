-- ===== src/Verifier/Words.antt =====
-- The words of the command, taken apart at the blanks.
use arb_bridge_peripherals.Base.{
  ℕ, zero, suc, ◌+◌, ◌/◌, ◌%◌, ◌≤◌, ◌≡◌, refl, sym, ap, ◌∙◌, Bool, true, false, Option, none, some,
  List, [], ◌∷◌, ◌++◌, append_assoc, append-nil, Text, codes, any, length, ◌==◌, ltb, if◌then◌else◌,
  arith,
}
use arb_bridge_peripherals.Verifier.{
  ContractVerifier, contract_to_source, find, source_file, decimal_digits, decimal, blank,
  source_text, optimizations, with_constructor_args, verify_command,
}

abbrev push : ℕ → List Text → List Text
push c [] = (c ∷ []) ∷ []
push c (w ∷ ws) = (c ∷ w) ∷ ws

unfoldable pub words : Text → List Text
words [] = [] ∷ []
words (c ∷ cs) = let rest = words cs in if c == b' ' then [] ∷ rest else push c rest

-- A text that is one word.
abbrev pub has_blank : Text → Bool
has_blank t = any (λ c. c == b' ') t

abbrev pub HasNoBlank : Text → Type 0
HasNoBlank t = has_blank t ≡ false

length-push : (c : ℕ) (ws : List Text) → 1 ≤ length (push c ws)
length-push c [] = omega arith
length-push c (w ∷ ws) = omega arith

length-words : (s : Text) → 1 ≤ length (words s)
unfolding words
length-words [] = omega arith
length-words (c ∷ cs) = ground (arith, length-push c (words cs))

push-append : (c : ℕ) (ws vs : List Text) → 1 ≤ length ws → push c (ws ++ vs) ≡ push c ws ++ vs
push-append c [] vs h = absurd (omega (arith, h))
push-append c (w ∷ ws) vs h = refl

pub words-blank : (s t : Text) → words (blank s t) ≡ words s ++ words t
unfolding words blank
words-blank [] t = refl
words-blank (c ∷ cs) t = at (c == b' ') (words-blank cs t)
  where
    at :
        (b : Bool)
        → words (blank cs t) ≡ words cs ++ words t
        → (if b then [] ∷ words (blank cs t) else push c (words (blank cs t)))
          ≡ (if b then [] ∷ words cs else push c (words cs)) ++ words t
    at true ih = ap (λ ws. [] ∷ ws) ih
    at false ih = ap (push c) ih ∙ push-append c (words cs) (words t) (length-words cs)

pub words-word : (s : Text) → HasNoBlank s → words s ≡ s ∷ []
unfolding words
words-word [] h = refl
words-word (c ∷ cs) h = at (c == b' ') h (λ g. words-word cs g)
  where
    at :
        (b : Bool)
        → (elim b as (λ _. Bool) [ true ↦ true | false ↦ has_blank cs ]) ≡ false
        → (HasNoBlank cs → words cs ≡ cs ∷ [])
        → (if b then [] ∷ words cs else push c (words cs)) ≡ (c ∷ cs) ∷ []
    at true g ih = cc
    at false g ih = ap (push c) (ih g)

decimal_digits-HasNoBlank :
    (k n : ℕ) (ds : Text) → HasNoBlank ds → HasNoBlank (decimal_digits k n ds)
unfolding decimal_digits
decimal_digits-HasNoBlank zero n ds h = h
decimal_digits-HasNoBlank (suc k) n ds h =
    at (ltb n 10) (decimal_digits-HasNoBlank k (n / 10) ((n % 10 + b'0') ∷ ds) (ground (arith, h)))
  where
    at :
        (b : Bool)
        → HasNoBlank (decimal_digits k (n / 10) ((n % 10 + b'0') ∷ ds))
        → HasNoBlank
            (if b then (n + b'0') ∷ ds else decimal_digits k (n / 10) ((n % 10 + b'0') ∷ ds))
    at true ih = ground (arith, h)
    at false ih = ih

decimal-HasNoBlank : (n : ℕ) → HasNoBlank (decimal n)
unfolding decimal
decimal-HasNoBlank n = decimal_digits-HasNoBlank (suc n) n [] refl

-- What no value of a table has, no value that is found in it has.
find-false :
    (p : Text → Bool) (k : Text) (d : List (Text × Text)) (v : Text)
    → any (λ (e : Text × Text). p e.1) d ≡ false
    → find k d ≡ some v
    → p v ≡ false
unfolding find
find-false p k [] v h e = cc
find-false p k ((j, u) ∷ d) v h e = ground (arith, h, e, find-false p k d v)

source_text-HasNoBlank : (name : Text) → HasNoBlank (source_text (source_file name))
unfolding source_text source_file
source_text-HasNoBlank name = at (source_file name) refl
  where
    at : (o : Option Text) → source_file name ≡ o → HasNoBlank (source_text o)
    at none e = refl
    at (some s) e = find-false has_blank name contract_to_source s refl e

-- What stands in the command for the constructor's arguments.
abbrev pub argument_words : Option Text → List Text
argument_words none = []
argument_words (some []) = []
argument_words (some (c ∷ cs)) = codes "--constructor-args" ∷ (c ∷ cs) ∷ []

abbrev pub OptionWord : Option Text → Type 0
OptionWord none = Unit
OptionWord (some s) = HasNoBlank s

record IsSplit (s : Text) (ws : List Text) : Type 0 where
  split : words s ≡ ws

IsSplit-word : (s : Text) → HasNoBlank s → IsSplit s (s ∷ [])
IsSplit-word s h = record { split = words-word s h }

IsSplit-blank :
    {s t : Text} {ws vs : List Text} → IsSplit s ws → IsSplit t vs → IsSplit (blank s t) (ws ++ vs)
IsSplit-blank {s} {t} e f = record { split = words-blank s t ∙ cc (e.split, f.split) }

IsSplit-with_constructor_args :
    (args : Option Text) {s : Text} {ws : List Text}
    → OptionWord args
    → IsSplit s ws
    → IsSplit (with_constructor_args args s) (ws ++ argument_words args)
unfolding with_constructor_args
IsSplit-with_constructor_args none {s} {ws} h e = record { split = e.split ∙ sym (append-nil ws) }
IsSplit-with_constructor_args (some []) {s} {ws} h e = record {
  split = e.split ∙ sym (append-nil ws);
}
IsSplit-with_constructor_args (some (c ∷ cs)) {s} {ws} h e = record {
  split =
      (IsSplit-blank (IsSplit-blank e (IsSplit-word (codes "--constructor-args") refl))
        (IsSplit-word (c ∷ cs) h)).split
      ∙ append_assoc ws (codes "--constructor-args" ∷ []) ((c ∷ cs) ∷ []);
}

IsSplit-words : (s : Text) → IsSplit s (words s)
IsSplit-words s = record { split = refl }

abbrev pub command_words : ContractVerifier → Text → Text → Option Text → Option ℕ → List Text
command_words v name address args number =
    codes "forge"
      ∷ codes "verify-contract"
      ∷ codes "--chain-id"
      ∷ decimal v.chain_id
      ∷ codes "--compiler-version"
      ∷ codes "0.8.16"
      ∷ codes "--num-of-optimizations"
      ∷ decimal (optimizations number)
      ∷ argument_words args
    ++ address ∷ source_text (source_file name) ∷ codes "--etherscan-api-key" ∷ v.api_key ∷ []

regroup : {s : Text} {ws vs : List Text} → IsSplit s ws → ws ≡ vs → IsSplit s vs
regroup h e = record { split = h.split ∙ e }

four_last :
    (xs ys : List Text) (a b c d : Text)
    → ((((xs ++ ys) ++ (a ∷ [])) ++ (b ∷ [])) ++ (c ∷ [])) ++ (d ∷ [])
      ≡ xs ++ (ys ++ a ∷ b ∷ c ∷ d ∷ [])
four_last [] [] a b c d = refl
four_last [] (y ∷ ys) a b c d = ap (λ l. y ∷ l) (four_last [] ys a b c d)
four_last (x ∷ xs) ys a b c d = ap (λ l. x ∷ l) (four_last xs ys a b c d)

IsSplit-verify_command :
    (v : ContractVerifier) (name address : Text) (args : Option Text) (number : Option ℕ)
    → HasNoBlank v.api_key
    → HasNoBlank address
    → OptionWord args
    → IsSplit (verify_command v name address args number) (command_words v name address args number)
unfolding verify_command words
IsSplit-verify_command v name address args number hk ha hargs =
    regroup
      (IsSplit-blank
        (IsSplit-blank
          (IsSplit-blank
            (IsSplit-blank
              (IsSplit-with_constructor_args args hargs (
                IsSplit-blank
                  (IsSplit-blank
                    (IsSplit-blank
                      (IsSplit-blank
                        (IsSplit-words (
                          blank (blank (codes "forge") (codes "verify-contract"))
                            (codes "--chain-id")))
                        (IsSplit-word (decimal v.chain_id) (decimal-HasNoBlank v.chain_id)))
                      (IsSplit-words (codes "--compiler-version 0.8.16")))
                    (IsSplit-words (codes "--num-of-optimizations")))
                  (IsSplit-word (decimal (optimizations number))
                    (decimal-HasNoBlank (optimizations number)))))
              (IsSplit-word address ha))
            (IsSplit-word (source_text (source_file name)) (source_text-HasNoBlank name)))
          (IsSplit-words (codes "--etherscan-api-key")))
        (IsSplit-word v.api_key hk))
      (four_last
        (codes "forge"
          ∷ codes "verify-contract"
          ∷ codes "--chain-id"
          ∷ decimal v.chain_id
          ∷ codes "--compiler-version"
          ∷ codes "0.8.16"
          ∷ codes "--num-of-optimizations"
          ∷ decimal (optimizations number)
          ∷ [])
        (argument_words args) address (source_text (source_file name)) (codes "--etherscan-api-key")
        v.api_key)

-- For an address, a key and arguments without blanks, the command taken apart at its blanks is the
-- command of Foundry, each option with the value that is meant for it, the constructor's arguments only
-- if there are any, the address, the source as one word, and the key.
pub words-verify_command :
    (v : ContractVerifier) (name address : Text) (args : Option Text) (number : Option ℕ)
    → HasNoBlank v.api_key
    → HasNoBlank address
    → OptionWord args
    → words (verify_command v name address args number) ≡ command_words v name address args number
words-verify_command v name address args number hk ha hargs =
    (IsSplit-verify_command v name address args number hk ha hargs).split
