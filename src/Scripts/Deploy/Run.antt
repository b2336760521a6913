-- ===== src/Scripts/Deploy/Run.antt =====
-- What a run of contracts/scripts/deploy_dex.ts writes.
use energy_chain.Shared.{
  ℕ, zero, suc, ◌≡◌, refl, List, [], ◌∷◌, Option, none, some, Option-cases, inl, inr, ◌⊎◌,
}
use energy_chain.Shared.Text.{Text, codes}
use energy_chain.Scripts.Steps.{
  Act, View, create, write_file, Node, Script, ◌>>=◌, Receipt, deploy, send, ask, created_address,
  Contracts, Deployment,
}
use energy_chain.Scripts.Deploy.{deploy_dex, usdt_creation}

-- The files that have been written, the last one first.
unfoldable pub files : List Act → List Deployment
files [] = []
files (write_file d ∷ acts) = d ∷ files acts
files (_ ∷ acts) = files acts

-- The transactions of the five deployments.
abbrev pub deployments : Contracts → Text → List Act → List Act
deployments c deployer acts =
    create (codes "ERC20TokenFactory") []
    ∷ create (codes "Multicall3") []
    ∷ create (codes "UniswapV2Router02") (c.factory ∷ c.wecy ∷ [])
    ∷ create (codes "UniswapV2Factory") (deployer ∷ [])
    ∷ create (codes "WECY") []
    ∷ acts

-- The answer to the k-th deployment, made behind the ones before it.
abbrev pub Answers : Node → List Act → Text → Type 0
Answers n [] address = Unit
Answers n (act ∷ acts) address = n.created acts act ≡ some address

abbrev pub behind : ℕ → List Act → List Act
behind zero acts = acts
behind (suc k) [] = []
behind (suc k) (_ ∷ acts) = behind k acts

-- A run that has written the file: it has made the five deployments and the creation of the token
-- before, the file holds the addresses that were answered, and the router is deployed with the factory
-- and the token of the file.
pub record IsWritten (n : Node) (deployer now : Text) (acts acts' : List Act) : Type 0 where
  pub network : List ℕ
  pub receipt : Receipt
  pub contracts : Contracts
  pub order :
      acts'
      ≡ write_file (record {
        network = network;
        deployer = deployer;
        timestamp = now;
        contracts = contracts;
      })
        ∷ usdt_creation contracts.token_factory
        ∷ deployments contracts deployer acts
  pub wecy : Answers n (behind 4 (deployments contracts deployer acts)) contracts.wecy
  pub factory : Answers n (behind 3 (deployments contracts deployer acts)) contracts.factory
  pub router : Answers n (behind 2 (deployments contracts deployer acts)) contracts.router
  pub multicall : Answers n (behind 1 (deployments contracts deployer acts)) contracts.multicall
  pub token_factory : Answers n (deployments contracts deployer acts) contracts.token_factory
  pub creation :
      n.receipt (deployments contracts deployer acts) (usdt_creation contracts.token_factory)
      ≡ some receipt
  pub test_usdt : contracts.test_usdt ≡ created_address receipt

-- A script that ends with the property.
pub record Ends {B : Type 0} (Q : List Act × Option B → Type 0) (s : Script B) (acts : List Act)
    : Type 0 where
  pub ends : Q (s acts)

module _ {B : Type 0} (n : Node) (Q : List Act × Option B → Type 0) (acts : List Act) where
  then_deploy :
      (contract : Text) (args : List Text) (f : Text → Script B)
      → Q (create contract args ∷ acts, none)
      → ((a : Text)
          → n.created acts (create contract args) ≡ some a
          → Ends Q (f a) (create contract args ∷ acts))
      → Ends Q (deploy n contract args >>= f) acts
  unfolding deploy ◌>>=◌
  then_deploy contract args f fails goes =
      elim (Option-cases (n.created acts (create contract args))) [
        | inl e ↦ record { ends = rw e fails }
        | inr (a, e) ↦ record { ends = rw e ((goes a e).ends) }
      ]

  then_send :
      (act : Act) (f : Receipt → Script B)
      → Q (act ∷ acts, none)
      → ((r : Receipt) → n.receipt acts act ≡ some r → Ends Q (f r) (act ∷ acts))
      → Ends Q (send n act >>= f) acts
  unfolding send ◌>>=◌
  then_send act f fails goes = elim (Option-cases (n.receipt acts act)) [
    | inl e ↦ record { ends = rw e fails }
    | inr (r, e) ↦ record { ends = rw e ((goes r e).ends) }
  ]

  then_ask :
      (view : View) (f : List ℕ → Script B)
      → Q (acts, none)
      → ((ns : List ℕ) → Ends Q (f ns) acts)
      → Ends Q (ask n view >>= f) acts
  unfolding ask ◌>>=◌
  then_ask view f fails goes = elim (Option-cases (n.numbers acts view)) [
    | inl e ↦ record { ends = rw e fails }
    | inr (ns, e) ↦ record { ends = rw e ((goes ns).ends) }
  ]

-- Whatever the chain answers, a run of deploy_dex.ts either writes no file, or writes it once, behind
-- the five deployments and the creation of the token, in this order, each of them answered, with the
-- addresses that were answered, the router being deployed with the factory and the WECY of the file.
pub deploy_dex-writes :
    (n : Node) (deployer now : Text) (acts : List Act)
    → (files ((deploy_dex n deployer now acts).0) ≡ files acts)
      ⊎ IsWritten n deployer now acts ((deploy_dex n deployer now acts).0)
unfolding deploy_dex send files
deploy_dex-writes n deployer now acts =
    let Q : List Act × Option Receipt → Type 0 =
      λ r. (files r.0 ≡ files acts) ⊎ IsWritten n deployer now acts r.0 in
    let run : Ends Q (deploy_dex n deployer now) acts = then_ask n Q _ _ _ (inl refl) λ balance.
      then_deploy n Q _ _ _ _ (inl refl) λ wecy e_wecy.
        then_deploy n Q _ _ _ _ (inl refl) λ factory e_factory.
          then_deploy n Q _ _ _ _ (inl refl) λ router e_router.
            then_deploy n Q _ _ _ _ (inl refl) λ multicall e_multicall.
              then_deploy n Q _ _ _ _ (inl refl) λ token_factory e_token_factory.
                then_send n Q _ _ _ (inl refl) λ receipt e_receipt.
                  then_ask n Q _ _ _ (inl refl) λ network. record {
                    ends = inr (record {
                      network = network;
                      receipt = receipt;
                      contracts = record {
                        wecy = wecy;
                        factory = factory;
                        router = router;
                        multicall = multicall;
                        token_factory = token_factory;
                        test_usdt = created_address receipt;
                      };
                      order = refl;
                      wecy = e_wecy;
                      factory = e_factory;
                      router = e_router;
                      multicall = e_multicall;
                      token_factory = e_token_factory;
                      creation = e_receipt;
                      test_usdt = refl;
                    });
                  } in
    run.ends
