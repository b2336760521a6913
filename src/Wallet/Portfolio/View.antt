-- ===== src/Wallet/Portfolio/View.antt =====
-- What `PortfolioPage` of dex-frontend/src/pages/PortfolioPage.tsx renders.
use energy_chain.Shared.{
  ℕ, ◌≡◌, refl, Bool, false, not, List, [], ◌∷◌, ◌++◌, Option, none, some, if◌then◌else◌,
}
use energy_chain.Shared.Text.{Text, codes}
use energy_chain.Wallet.Display.{Display}
use energy_chain.Wallet.Markup.{
  Item, shows, loading, connect_wallet, button, words, when, Refresh, refreshes,
}
use energy_chain.Wallet.Selector.View.{is_none}
use energy_chain.Wallet.Portfolio.{TxRecord, TokenBal, Shown}

-- `txs.map`
unfoldable pub tx_items : List TxRecord → List (Item Refresh)
tx_items [] = []
tx_items (tx ∷ txs) =
    shows tx.hash ∷ shows tx.kind ∷ shows tx.time ∷ shows (codes "Success") ∷ tx_items txs

unfoldable pub tx_panel : Bool → Bool → List TxRecord → List (Item Refresh)
tx_panel is_connected is_loading txs =
    shows (codes "Recent Transactions")
    ∷ (if not is_connected
        then shows (codes "Connect wallet to view transactions.") ∷ []
        else if is_none txs
        then shows (if is_loading then codes "Loading..." else codes "No recent swap transactions.")
          ∷ []
        else tx_items txs)

-- `isConnected && address && …`
unfoldable pub address_items : Bool → Option Text → List (Item Refresh)
address_items is_connected none = []
address_items is_connected (some address) = when is_connected (shows address ∷ [])

module _ (d : Display) where
  -- `nativeNum`
  unfoldable pub native_num : Option (ℕ × ℕ) → d.F
  native_num none = d.zero_f
  native_num (some (value, decimals)) = d.units value decimals

  unfoldable pub balance_card : Bool → Option Text → Option (ℕ × ℕ) → List (Item Refresh)
  balance_card is_connected address native_bal =
      shows (codes "ECY Balance")
      ∷ shows (
          if is_connected then d.to_locale 4 (native_num native_bal) ++ codes " ECY" else codes "—")
      ∷ address_items is_connected address

  -- `tokenBals.map`
  unfoldable pub bal_items : List (TokenBal d) → List (Item Refresh)
  bal_items [] = []
  bal_items (t ∷ bals) = shows t.symbol ∷ shows t.name ∷ shows t.balance ∷ bal_items bals

  unfoldable pub bals_panel : Bool → Bool → List (TokenBal d) → List (Item Refresh)
  bals_panel is_connected is_loading bals =
      shows (codes "Token Balances")
      ∷ (if not is_connected
          then shows (codes "Connect your wallet to view balances.") ∷ []
          else if is_loading
          then loading ∷ []
          else if is_none bals
          then shows (codes "No ERC-20 tokens found.") ∷ []
          else bal_items bals)

  unfoldable pub portfolio_page :
      Bool → Bool → Option Text → Option (ℕ × ℕ) → Shown d → List (Item Refresh)
  portfolio_page is_connected is_loading address native_bal s =
      (shows (codes "Portfolio") ∷ [])
      ++ (when is_connected (button false refreshes (words []) ∷ [])
          ++ (when (not is_connected) (connect_wallet ∷ [])
              ++ (balance_card is_connected address native_bal
                  ++ (bals_panel is_connected is_loading s.token_bals
                      ++ tx_panel is_connected is_loading s.txs))))

  address_items-hidden : (a b : Option Text) → address_items false a ≡ address_items false b
  unfolding address_items when
  address_items-hidden none none = refl
  address_items-hidden none (some b) = refl
  address_items-hidden (some a) none = refl
  address_items-hidden (some a) (some b) = refl

  -- While no wallet is connected, the page is the same whatever address, balances and transactions an
  -- earlier connection has left behind.
  portfolio_page-hides :
      (is_loading later : Bool) (a b : Option Text) (m n : Option (ℕ × ℕ)) (s t : Shown d)
      → portfolio_page false is_loading a m s ≡ portfolio_page false later b n t
  unfolding portfolio_page balance_card bals_panel tx_panel
  portfolio_page-hides is_loading later a b m n s t = cc (address_items-hidden a b)
