-- ===== src/Tests/Scripts.antt =====
-- The scripts on a chain whose first swap fails.
use energy_chain.Shared.{◌≡◌, refl, [], ◌∷◌, none, some, ◌⊎◌}
use energy_chain.Shared.Text.{codes}
use energy_chain.Scripts.Steps.{
  swap_exact_eth_for_tokens, swap_exact_tokens_for_tokens, approve, deposit, Node, Contracts, ether,
  ask, ask_address, send, try_catch, expect, ◌>>=◌,
}
use energy_chain.Scripts.Deploy.{deploy_dex}
use energy_chain.Scripts.Deploy.Run.{files, IsWritten, deploy_dex-writes}
use energy_chain.Scripts.Swap.{add_liquidity, test_swap, swap_ecy, swap_wecy, wrap_and_swap}
use energy_chain.Scripts.Tour.{test_all}
use energy_chain.Scripts.Allowance.{IsCovered}
use energy_chain.Scripts.Allowance.Scripted.{scripts-IsCovered}

abbrev node : Node
node = record {
  created = λ acts act. some (codes "0xC");
  receipt = λ acts act. elim act [
    | swap_exact_eth_for_tokens _ _ _ _ _ _ ↦ none
    | _ ↦ some (some (some (codes "0xU") ∷ []))
  ];
  numbers = λ acts view. some (1 ∷ 2 ∷ 3 ∷ []);
  address = λ acts view. some (codes "0xP");
}

abbrev contracts : Contracts
contracts = record {
  wecy = codes "0xW";
  factory = codes "0xF";
  router = codes "0xR";
  multicall = codes "0xM";
  token_factory = codes "0xT";
  test_usdt = codes "0xU";
}

-- The first swap fails, and the same amount is wrapped, approved and swapped.
falls_back :
    (test_swap node contracts (codes "0xD") 9 []).0
    ≡ swap_exact_tokens_for_tokens
        (codes "0xR")
        (ether 10)
        0
        (codes "0xW" ∷ codes "0xU" ∷ [])
        (codes "0xD")
        9
      ∷ approve (codes "0xW") (codes "0xR") (ether 10)
      ∷ deposit (codes "0xW") (ether 10)
      ∷ swap_exact_eth_for_tokens
          (codes "0xR")
          0
          (codes "0xW" ∷ codes "0xU" ∷ [])
          (codes "0xD")
          9
          (ether 10)
      ∷ []
unfolding test_swap swap_ecy wrap_and_swap swap_wecy ask ask_address send try_catch expect ◌>>=◌
falls_back = refl

deploy_dex-writes_example :
    (files ((deploy_dex node (codes "0xD") (codes "now") []).0) ≡ files [])
    ⊎ IsWritten node
        (codes "0xD")
        (codes "now")
        []
        ((deploy_dex node (codes "0xD") (codes "now") []).0)
deploy_dex-writes_example = deploy_dex-writes node (codes "0xD") (codes "now") []

scripts-IsCovered_example :
    IsCovered node contracts ((add_liquidity node contracts (codes "0xD") 9 []).0)
    × IsCovered node contracts ((test_swap node contracts (codes "0xD") 9 []).0)
    × IsCovered node contracts ((test_all node contracts (codes "0xD") 9 []).0)
scripts-IsCovered_example =
    scripts-IsCovered node contracts (codes "0xD") 9 [] (λ before token spender amount view. refl)
      tt
