-- ===== src/Chain/Small.antt =====
-- A chain small enough to compute with.
use arb_bridge_peripherals.Base.{ℕ, ◌+◌, Option, none, some, true, [], ◌∷◌, Text, codes}
use arb_bridge_peripherals.Chain.Types.{parent, child, Getter, Status}
use arb_bridge_peripherals.Chain.{Network, World}

-- A chain whose state counts its transactions, with the answer to `nativeToken`.
abbrev pub small_chain : Option Text → Network
small_chain token = record {
  State = ℕ;
  read = λ l a g s. elim g as (λ _. Option Text) [
    | Getter.native_token ↦ token
    | Getter.router ↦ elim l as (λ _. Option Text) [
      | parent ↦ some (codes "0x01")
      | child ↦ some (codes "0x02")
    ]
    | Getter.counterpart_gateway ↦ elim l as (λ _. Option Text) [
      | parent ↦ some (codes "0x22")
      | child ↦ some (codes "0x20")
    ]
    | Getter.inbox ↦ some (codes "0x10")
    | Getter.l1_usdc ↦ some (codes "0x03")
    | Getter.l2_usdc ↦ some (codes "0x04")
    | _ ↦ some (codes "0xa1")
  ];
  read_number = λ l a g s. some 6;
  read_flag = λ l a g s. some true;
  has_role = λ l e r a s. some true;
  created_owners = λ c i s. some (codes "0x0e" ∷ []);
  checksum = λ t. some t;
  big_number = λ t. some 1;
  chain_id = λ l s. some 1;
  chain_name = λ l s. some (codes "chain");
  gas_price = λ l s. some 10;
  base_fee = λ s. some 7;
  deploy = λ l from c s. some (codes "0xc0", s + 1);
  send = λ l from tx s. some (codes "0xfe", s + 1);
  estimate_all = λ r fee s.
      some
        (record { gas_limit = 100; max_fee_per_gas = 2; max_submission_cost = 50; deposit = 250 });
  estimate_gas = λ l a tx s. some 21000;
  populate_params = λ f s.
      some
        (record { gas_limit = 100; max_fee_per_gas = 2; max_submission_cost = 50; deposit = 250 });
  inbox_to_l1_deployment = λ c i s. none;
  inbox_to_l2_deployment = λ c i s. none;
  message_count = λ h s. some 2;
  wait_for_status = λ h i s. some (Status.redeemed, s);
  wait_for_deposit = λ h s. some s;
  accepts_network = λ l1 l2 s. true;
  wallet_address = λ key. some (codes "0xee");
  random_address = λ n. codes "0x77";
}

abbrev pub start : (token : Option Text) → World (small_chain token)
start token = record { chain = 0; draws = 0; log = [] }
