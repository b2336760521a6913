-- ===== src/Wallet/Farm/View.antt =====
-- What `FarmPage` of dex-frontend/src/pages/FarmPage.tsx renders.
use energy_chain.Shared.{Bool, false, List, [], ◌∷◌, ◌++◌, take, if◌then◌else◌}
use energy_chain.Shared.Text.{codes}
use energy_chain.Wallet.Display.{Display, slice_last}
use energy_chain.Wallet.Markup.{Item, shows, loading, button, words, when, Refresh, refreshes}
use energy_chain.Wallet.Selector.View.{is_none}
use energy_chain.Wallet.Farm.{FarmPool}

module _ (d : Display) where
  -- The card of a pool; the share only for an account that has a part of it.
  unfoldable pub farm_card : FarmPool d → List (Item Refresh)
  farm_card f =
      (shows f.label
        ∷ shows (take 10 f.pair_addr ++ (codes "…" ++ slice_last 6 f.pair_addr))
        ∷ shows (codes "Reserve 0")
        ∷ shows f.reserve0
        ∷ shows (codes "Reserve 1")
        ∷ shows f.reserve1
        ∷ shows (codes "Total LP")
        ∷ shows f.total_lp
        ∷ shows (codes "Your LP")
        ∷ shows f.user_lp
        ∷ [])
      ++ when (d.less d.zero_f f.user_lp_raw) (shows (f.share_percent ++ codes "%") ∷ [])

  unfoldable pub farm_cards : List (FarmPool d) → List (Item Refresh)
  farm_cards [] = []
  farm_cards (f ∷ farms) = farm_card f ++ farm_cards farms

  unfoldable pub farm_page : Bool → List (FarmPool d) → List (Item Refresh)
  farm_page is_loading farms =
      shows (codes "Liquidity Pools")
      ∷ shows (codes "View all active pools and your LP positions")
      ∷ button false refreshes (words [])
      ∷ (if is_loading
          then loading ∷ []
          else if is_none farms
          then shows (codes "No pools found") ∷ []
          else farm_cards farms)
