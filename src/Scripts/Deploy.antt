-- ===== src/Scripts/Deploy.antt =====
-- contracts/scripts/deploy_dex.ts, fund_dev0.ts and deploy.ts: the deployment of the exchange, the
-- account that it is tried with, and the deployment of the contract for attestations.
pub mod Run
use energy_chain.Shared.{ℕ, ◌≡◌, refl, List, [], ◌∷◌, Option, none, some}
use energy_chain.Shared.Text.{Text, codes}
use energy_chain.Scripts.Steps.{
  Act, create_token, write_file, transfer, send_value, balance_of, get_balance, get_network, Node,
  ask_address, network_name, write_attestation, Script, ◌>>=◌, ◌>>◌, Receipt, deploy, send, ask,
  ether, created_address, Contracts, Deployment,
}

-- The transaction of the sixth step.
abbrev pub usdt_creation : Text → Act
usdt_creation token_factory =
    create_token token_factory (codes "Test USDT") (codes "USDT") 18 (ether 1000000000)

unfoldable pub deploy_dex : Node → Text → Text → Script Receipt
deploy_dex n deployer now = do
  ask n (get_balance deployer)
  wecy ← deploy n (codes "WECY") []
  factory ← deploy n (codes "UniswapV2Factory") (deployer ∷ [])
  router ← deploy n (codes "UniswapV2Router02") (factory ∷ wecy ∷ [])
  multicall ← deploy n (codes "Multicall3") []
  token_factory ← deploy n (codes "ERC20TokenFactory") []
  receipt ← send n (usdt_creation token_factory)
  network ← ask n get_network
  send n (
      write_file (record {
        network = network;
        deployer = deployer;
        timestamp = now;
        contracts = record {
          wecy = wecy;
          factory = factory;
          router = router;
          multicall = multicall;
          token_factory = token_factory;
          test_usdt = created_address receipt;
        };
      }))

-- `dev0_address` is the address of the key that is written in the script.
unfoldable pub fund_dev0 : Node → Contracts → Text → Script (List ℕ)
fund_dev0 n contracts dev0_address = do
  send n (send_value dev0_address (ether 10000))
  send n (transfer contracts.test_usdt dev0_address (ether 100000))
  ask n (get_balance dev0_address)
  ask n (balance_of contracts.test_usdt dev0_address)

-- deploy.ts
unfoldable pub deploy_attestation : Node → Text → Text → Script Receipt
deploy_attestation n deployer now = do
  ask n (get_balance deployer)
  contract ← deploy n (codes "EnergyDataAttestation") []
  network ← ask_address n network_name
  chain_id ← ask n get_network
  send n (
      write_attestation (record {
        network = network;
        chain_id = chain_id;
        deployer = deployer;
        contract = contract;
        deployed_at = now;
      }))
