-- ===== src/Scripts/Steps.antt =====
-- What the scripts of contracts/scripts do to the chain and to the file of a deployment.
use energy_chain.Shared.{ℕ, zero, suc, ◌*◌, ◌^◌, List, [], ◌∷◌, Option, none, some}
use energy_chain.Shared.Text.{Text}

-- `deployment.contracts`
pub record Contracts : Type 0 where
  pub wecy : Text
  pub factory : Text
  pub router : Text
  pub multicall : Text
  pub token_factory : Text
  pub test_usdt : Text

-- `deployment`; the number of the network stands for its text.
pub record Deployment : Type 0 where
  pub network : List ℕ
  pub deployer : Text
  pub timestamp : Text
  pub contracts : Contracts

-- What deploy.ts writes.
pub record Attestation : Type 0 where
  pub network : Text
  pub chain_id : List ℕ
  pub deployer : Text
  pub contract : Text
  pub deployed_at : Text

-- A transaction, or a file that is written. `create` deploys a contract with the addresses that its
-- constructor takes.
pub data Act : Type 0 where
  create : (contract : Text) (args : List Text) → Act
  create_token : (token_factory name symbol : Text) (decimals supply : ℕ) → Act
  approve : (token spender : Text) (amount : ℕ) → Act
  transfer : (token to : Text) (amount : ℕ) → Act
  send_value : (to : Text) (amount : ℕ) → Act
  deposit : (wecy : Text) (amount : ℕ) → Act
  withdraw : (wecy : Text) (amount : ℕ) → Act
  add_liquidity_eth :
      (router token : Text) (desired token_min eth_min : ℕ) (to : Text) (deadline amount : ℕ) → Act
  remove_liquidity_eth :
      (router token : Text) (liquidity token_min eth_min : ℕ) (to : Text) (deadline : ℕ) → Act
  swap_exact_eth_for_tokens :
      (router : Text) (out_min : ℕ) (path : List Text) (to : Text) (deadline amount : ℕ) → Act
  swap_exact_tokens_for_tokens :
      (router : Text) (amount out_min : ℕ) (path : List Text) (to : Text) (deadline : ℕ) → Act
  swap_exact_tokens_for_eth :
      (router : Text) (amount out_min : ℕ) (path : List Text) (to : Text) (deadline : ℕ) → Act
  write_file : (deployment : Deployment) → Act
  write_attestation : (attestation : Attestation) → Act

-- What is asked without a transaction. The answer is a list of numbers.
pub data View : Type 0 where
  get_network : View
  get_balance : (account : Text) → View
  balance_of : (token account : Text) → View
  get_reserves : (pair : Text) → View
  get_amounts_out : (router : Text) (amount : ℕ) (path : List Text) → View
  quote : (router : Text) (amount reserve_a reserve_b : ℕ) → View
  all_pairs_length : (factory : Text) → View
  all_tokens_length : (token_factory : Text) → View

-- An address or another text that is asked.
pub data AddressView : Type 0 where
  get_pair : (factory token_a token_b : Text) → AddressView
  token0_of : (pair : Text) → AddressView
  token1_of : (pair : Text) → AddressView
  factory_of : (router : Text) → AddressView
  weth_of : (router : Text) → AddressView
  network_name : AddressView

-- A log of a receipt: the first argument of the `TokenCreated` that `parseLog` makes of it, or none.
abbrev pub Receipt : Type 0
Receipt = Option (List (Option Text))

-- The answers, from the transactions sent so far; `none` throws.
pub record Node : Type 0 where
  pub created : List Act → Act → Option Text
  pub receipt : List Act → Act → Option Receipt
  pub numbers : List Act → View → Option (List ℕ)
  pub address : List Act → AddressView → Option Text

abbrev pub Script : Type 0 → Type 0
Script A = List Act → List Act × Option A

infixl 5 ◌>>=◌ ◌>>◌
unfoldable pub ◌>>=◌ : {A B : Type 0} → Script A → (A → Script B) → Script B
◌>>=◌ m f h = elim ((m h).1) [ none ↦ ((m h).0, none) | some a ↦ f a ((m h).0) ]

abbrev pub ◌>>◌ : {A B : Type 0} → Script A → Script B → Script B
◌>>◌ m k = m >>= λ _. k

unfoldable pub return : {A : Type 0} → A → Script A
return a h = (h, some a)

-- `x[k]` of an answer, which throws where it is formatted and there is nothing.
unfoldable pub expect : {A : Type 0} → Option A → Script A
expect x h = (h, x)

-- `amounts[k]`
abbrev pub number_at : ℕ → List ℕ → Option ℕ
number_at k [] = none
number_at zero (n ∷ ns) = some n
number_at (suc k) (n ∷ ns) = number_at k ns

-- `try { body } catch { handler }`
unfoldable pub try_catch : {A : Type 0} → Script A → Script A → Script A
try_catch body handler h = elim ((body h).1) [
  | none ↦ handler ((body h).0)
  | some a ↦ ((body h).0, some a)
]

-- `getContractFactory`, `deploy`, `waitForDeployment` and `getAddress`
unfoldable pub deploy : Node → Text → List Text → Script Text
deploy n contract args h = (create contract args ∷ h, n.created h (create contract args))

-- A call that sends a transaction, and its `wait`; or the writing of a file.
unfoldable pub send : Node → Act → Script Receipt
send n act h = (act ∷ h, n.receipt h act)

unfoldable pub ask : Node → View → Script (List ℕ)
ask n view h = (h, n.numbers h view)

unfoldable pub ask_address : Node → AddressView → Script Text
ask_address n view h = (h, n.address h view)

-- `ethers.parseEther` of a whole number.
unfoldable pub ether : ℕ → ℕ
ether n = n * 10 ^ 18

-- `logs.find(...)`, and the first argument of the log that is found, or "".
unfoldable pub first_created : List (Option Text) → Text
first_created [] = []
first_created (none ∷ logs) = first_created logs
first_created (some token ∷ logs) = token

unfoldable pub created_address : Receipt → Text
unfolding first_created
created_address none = []
created_address (some logs) = first_created logs
