-- ===== src/Lib.antt =====
-- The scripts of arb-bridge-peripherals, as a model that can be run and that theorems are proved about.
--
-- The repository holds the contracts of Arbitrum's token bridge and the TypeScript programs that put them
-- on chains. The programs are modelled here: what they read, in which order they deploy and call, what they
-- write to disk, what they refuse, and how they end.
--
-- How a script is modelled. A script is a function from a state to its end, a value or a stop, and a
-- state (Base/Effects): an error that the script raises itself, an error of a call of outside code, or
-- `process.exit`. What was done before a stop stays done. Two records stand for the code that is not in
-- the repository and are arguments of every definition that calls it: `Network` (Chain.antt) for the
-- parent and the child chain, ethers, the SDK and the contracts' factories, and `Hre` (Upgrades/Node.antt)
-- for Hardhat, git, the chain and the terminal. No theorem assumes more of them than its statement says.
-- The state of a deployment script holds the chains' state and a log of its transactions, files and
-- registrations; that of an upgrade task holds the network's three JSON files; that of the mutation tester
-- the directories and the results. Addresses and hexadecimal data are lists of character codes; a BigNumber
-- is a natural number, since no subtraction of these programs goes below zero, and an address as a number
-- is taken modulo 2 ^ 160.
--
-- Bounds. Every loop is over a list or a known count but three. The mutation tester's loop over batches has
-- fuel, one more than there are mutants, which is enough since each batch takes at least one of them. The
-- digits of an alias are written 40 at a time, the hexadecimal digits of 160 bits, and the decimal digits
-- of n with the fuel n + 1, since each division by ten makes a positive number smaller.
--
-- How concurrency is modelled. The tests of a batch of mutants run at the same time. A test is a sequence
-- of phases on the shared directories, and a schedule says which test makes the next step. The two tickets
-- of `createTokenBridge` are waited for at the same time in the source (`Promise.all`); the model makes the
-- waits one after the other, and what is proved of them does not mention an order. The scripts await each
-- of their other calls in turn.
--
-- How the disk is modelled. For the upgrade tasks, the state says which of the coming calls of
-- `writeFileSync` and `unlinkSync` raise an error; such a call leaves the file as it was (a file that is
-- only half written is not modelled). The mutation tester's `ensureDir` and `remove` can fail as well, and
-- leave the directory as it was. The writes of the deployment scripts, the last thing that they do, are
-- taken to succeed.
--
-- The files, with the code that they model:
-- - Base: shared tests, lists, texts, dictionaries, scripts, and the rules of reasoning about scripts.
-- - Amount: `_getScaledAmount` of scripts/local-deployment/localDeploymentLib.ts and
--   `_getPrescaledAmount` of scripts/usdc-bridge-deployment/deployUsdcBridge.ts.
-- - Chain: the two chains as the scripts see them, and `_getFeeToken`, which two scripts share.
-- - Networks: `registerNetworks` of scripts/deployment/ and `_registerNetworks` of deployUsdcBridge.ts.
-- - Usdc: scripts/usdc-bridge-deployment/deployUsdcBridge.ts, function by function: Env (`_checkEnvVars`),
--   Linking and Token (`_deployUsdcLogic`, `_deployUsdcProxy`, `_deployBridgedUsdc`), Gateways
--   (`_initializeGateways` and the gateways' deployment), Registration (`_registerGateway`), Main.
-- - Chain/Growth: what a run adds to its log, by the kind of events: Scope (one chain and one account),
--   OnParent (the parent chain); Chain/Typed: which calls a contract has, and runs whose transactions are
--   typed.
-- - TokenBridge: scripts/atomicTokenBridgeDeployer.ts: Gas (`getEstimateForDeployingFactory`), Create
--   (`createTokenBridge`), Templates and Creator (`deployL1TokenBridgeCreator`), Register
--   (`registerGateway`); Target is scripts/deployment/, the two scripts that call them;
--   Creator/Typed follows the types of the creator's transactions.
-- - LocalDeployment: `setupTokenBridgeInLocalEnv` of scripts/local-deployment/localDeploymentLib.ts, and
--   `main` of deployCreatorAndCreateTokenBridge.ts there; Links is about `getLocalNetworks`,
--   Effects and Saved about the whole script.
-- - Upgrades: tasks/types.ts (Names) and tasks/index.ts: Files (the JSON files and, in Files/Disk, writes that fail), Signer, Verify
--   (`verifyCurrentImplementations`), Deploy (`deployLogic`), Update (`updateImplementations`), Admin.
--   Deploy/Queue and Deploy/Filling follow the queue, Update/Rounds and Update/Refinement
--   state an update step by step, with its transactions.
--   Upgrades/Tasks: tasks/peripheralsTasks.ts, with `verifyDeployments`; its child modules follow the
--   files of deployments through sequences of tasks.
-- - DeploymentCheck: test-e2e/tokenBridgeDeploymentTest.ts: Parent and Child (the expectations on each
--   chain's contracts), Ownership (the upgrade executors' roles), Whole (the test), Fees (`isUsingFeeToken`);
--   Rules, Wired, Unchanged and Sound carry the proofs.
-- - OrbitTokenBridge: test-e2e/orbitTokenBridge.ts: Deposit and Custom (the deposits), Usdc with
--   Usdc/Registration and Usdc/Handover (from bridged to native USDC), Suite (the tests in their order);
--   Steps, Deposit/Moved, Deposit/Traced and Usdc/Handover/Order carry the proofs.
-- - Alias: `applyAlias` of test/testhelper.ts, which DeploymentCheck calls.
-- - CreationCode: test-e2e/creationCodeTest.ts.
-- - BytecodeComparison: tasks/compareBytecode.ts: the search (Outcomes) and the lines that are printed
--   (Addresses).
-- - Verifier: scripts/contractVerifier.ts: Words (the command line), Sources (the table of sources).
-- - Blockscout: scripts/orbitVerifyOnBlockscout.ts, with the ways it can end in Outcomes.
-- - MutationTester: test-mutation/gambitTester.ts: the test of a mutant as a sequence of phases, Batches
--   (the loop), Turns (schedules), Report and Totals (what is printed); Alone, OneByOne, Settling and
--   Exhaustive carry the proofs.
--
-- Where the parts meet. The deployment scripts share the chains' state: the creator that Creator sets up is
-- the one that Create calls, and the fee token decides in Usdc/Registration and in Create how the tickets
-- are paid. The upgrade tasks share the files: Deploy fills the queue that Update empties. Every contract
-- that Creator submits for verification is looked up in Verifier's table. OrbitTokenBridge
-- starts from the network that LocalDeployment sets up and saves. DeploymentCheck reads what Create has set
-- up through the same parameter `Network`, and it has a test of the fee token of its own beside
-- Chain/FeeToken.
--
-- Not modelled: the Solidity contracts; scripts/register_custom_token.ts, scripts/utils.ts,
-- scripts/deploy_buddy_deployer.ts, scripts/upgradeTemplate.ts and scripts/verify_upgrade.ts, short scripts
-- around calls of libraries; hardhat.config.ts, which is settings; the tests of the contracts. Of
-- test-e2e/orbitTokenBridge.ts, the disabled test of withdrawals. Of the modelled files, delays, the measuring of time, the numbers of optimizer runs in the submissions of sources, and
-- the printing to the console, except for the mutation tester's report and the lines of compareBytecode.
-- A transaction that is mined while its `wait()` fails is not told apart from one that is refused.
pub mod Base
pub mod Amount
pub mod BytecodeComparison
pub mod OrbitTokenBridge
pub mod Chain
pub mod Networks
pub mod Usdc
pub mod TokenBridge
pub mod LocalDeployment
pub mod Upgrades
pub mod DeploymentCheck
pub mod Verifier
pub mod Blockscout
pub mod CreationCode
pub mod MutationTester
pub mod Alias
