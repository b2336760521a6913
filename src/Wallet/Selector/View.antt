-- ===== src/Wallet/Selector/View.antt =====
-- What `TokenSelector` of dex-frontend/src/components/common/TokenSelector.tsx renders. `close` is its
-- `onClose`, `search` is `setQuery`, and `pick` is what a click on a token does: `onSelect`, `onClose`
-- and `setQuery("")`.
use energy_chain.Shared.{
  Bool, true, false, List, [], ◌∷◌, ◌++◌, Option, none, some, All, All-append,
}
use energy_chain.Shared.Text.{Text, codes, lower, text_eq}
use energy_chain.Wallet.Units.{Token}
use energy_chain.Wallet.Markup.{
  Item, shows, dead, choice, button, words, field, when, Only, when-Only,
}
use energy_chain.Wallet.Selector.{filtered_tokens, filtered_tokens-keeps}

-- `selectedToken?.address.toLowerCase() === token.address.toLowerCase()`
unfoldable pub is_active : Option Token → Token → Bool
is_active none token = false
is_active (some selected) token = text_eq (lower selected.address) (lower token.address)

abbrev pub is_none {ℓ} : {A : Type ℓ} → List A → Bool
is_none [] = true
is_none (x ∷ xs) = false

module _ {E : Type 0} (close : E) (search : Text → E) (pick : Token → E) where
  -- A token of the list.
  unfoldable pub token_item : Option Token → Token → Item E
  token_item selected token =
      choice (is_active selected token) (pick token) (token.symbol ∷ token.name ∷ codes "0.00" ∷ [])

  unfoldable pub token_items : Option Token → List Token → List (Item E)
  token_items selected [] = []
  token_items selected (token ∷ tokens) = token_item selected token ∷ token_items selected tokens

  -- The component; a selector that is not open renders nothing.
  unfoldable pub token_selector : Bool → Text → Option Token → List Token → List (Item E)
  token_selector is_open query selected tokens =
      let filtered = filtered_tokens query tokens in
      when is_open (
        (button false close (words (codes "Close"))
          ∷ shows (codes "Select a token")
          ∷ button false close (words (codes "Close"))
          ∷ field query (codes "Search by name, symbol, or address") search
          ∷ [])
        ++ (token_items selected filtered
            ++ (when (is_none filtered) (shows (codes "No tokens match your search.") ∷ [])
                ++ dead (codes "Import by address (coming soon)") ∷ [])))

module _ {κ} {E : Type 0} (P : E → Type κ) (close : E) (search : Text → E) (pick : Token → E)
    (closes : P close) (searches : (s : Text) → P (search s)) where
  token_items-Only :
      (selected : Option Token) (tokens : List Token)
      → All (λ t. P (pick t)) tokens
      → All (Only P) (token_items close search pick selected tokens)
  unfolding token_items token_item
  token_items-Only selected [] h = tt
  token_items-Only selected (t ∷ tokens) (p, h) = (p, token_items-Only selected tokens h)

  -- What holds of its handlers and of the choice of every token holds of all that it can cause.
  pub token_selector-Only :
      (is_open : Bool) (query : Text) (selected : Option Token) (tokens : List Token)
      → All (λ t. P (pick t)) tokens
      → All (Only P) (token_selector close search pick is_open query selected tokens)
  unfolding token_selector
  token_selector-Only is_open query selected tokens h =
      let filtered = filtered_tokens query tokens in
      let items =
        token_items-Only selected filtered
          (filtered_tokens-keeps (λ t. P (pick t)) query tokens h) in
      let rest = All-append (Only P) (token_items close search pick selected filtered) _ items (
        All-append (Only P) (when (is_none filtered) _) _
          (when-Only P (is_none filtered) _ (λ _. (tt, tt))) (tt, tt)) in
      when-Only P is_open _ (λ _. ((λ _. closes), (tt, ((λ _. closes), (searches, rest)))))
