-- ===== src/Wallet/Pool/View/Events.antt =====
-- What a gesture on the pool page changes and sends.
use energy_chain.Shared.{ℕ, List, [], ◌∷◌, Option, none, some}
use energy_chain.Shared.Text.{Text}
use energy_chain.Wallet.Units.{Token}
use energy_chain.Wallet.Display.{Display}
use energy_chain.Wallet.Markup.{Gesture, fire}
use energy_chain.Wallet.Pool.{Call, handle_add_liquidity, handle_remove_liquidity}
use energy_chain.Wallet.Pool.Page.{
  PageEvent, chose_a, chose_b, confirmed, on_page_event, toggle, approve_token,
}
use energy_chain.Wallet.Pool.View.{
  Reading, units_of, Side, side_a, side_b, State, Hooks, Click, scrolls, adds, closes_selector,
  approves, removes, toggles, slides_to, opens_selector, searches, picks, edits,
}
use energy_chain.Wallet.Pool.View.Panels.{parsed_a, parsed_b, pool_page}

module _ (d : Display) (x : Reading d) (scaled : d.F → d.F → d.F → Text) where
  unfoldable pub change_page : Hooks d → PageEvent → State → State
  change_page h e s = record s {
    page = on_page_event (units_of d x) scaled h.pair_reserves e s.page;
  }

  -- `onSelect`
  unfoldable pub on_select : Hooks d → Option Side → Token → State → State
  on_select h none t s = s
  on_select h (some side_a) t s = change_page h (chose_a t) s
  on_select h (some side_b) t s = change_page h (chose_b t) s

  -- `onSelect`, `onClose` and `setQuery("")` of the selector
  unfoldable pub on_pick : Hooks d → Token → State → State
  on_pick h t s = record (on_select h s.sel t s) { sel = none; query = [] }

  -- What a handler changes.
  unfoldable pub on_click : Hooks d → Click → State → State
  on_click h scrolls s = s
  on_click h adds s = s
  on_click h closes_selector s = record s { sel = none }
  on_click h (approves token) s = s
  on_click h (removes pool) s = s
  on_click h (toggles idx) s = record s { remove_pool_idx = toggle idx s.remove_pool_idx }
  on_click h (slides_to percent) s = record s { remove_percent = percent }
  on_click h (opens_selector side) s = record s { sel = some side }
  on_click h (searches query) s = record s { query = query }
  on_click h (picks t) s = on_pick h t s
  on_click h (edits e) s = change_page h e s

  unfoldable pub changed_by : Hooks d → Option Click → State → State
  changed_by h none s = s
  changed_by h (some e) s = on_click h e s

  module _ (wecy : Text) where
    -- What a handler sends.
    unfoldable pub sends : Hooks d → State → Click → Option Call
    sends h s scrolls = none
    sends h s adds =
        handle_add_liquidity wecy h.address s.page.token_a s.page.token_b (parsed_a d x s.page)
          (parsed_b d x s.page) h.now
    sends h s closes_selector = none
    sends h s (approves token) = some (approve_token token)
    sends h s (removes pool) =
        handle_remove_liquidity wecy h.address pool s.remove_percent (h.lp_allowance pool.pair_addr)
          h.now
    sends h s (toggles idx) = none
    sends h s (slides_to percent) = none
    sends h s (opens_selector side) = none
    sends h s (searches query) = none
    sends h s (picks t) = none
    sends h s (edits e) = none

    unfoldable pub sent_by : Hooks d → State → Option Click → Option Call
    sent_by h s none = none
    sent_by h s (some e) = sends h s e

    module _ (number : ℕ → d.F) (tokens : List Token) where
      -- The call that a gesture on the page sends, if any.
      unfoldable pub page_call : Hooks d → State → Gesture → Option Call
      page_call h s g = sent_by h s (fire (pool_page d x number wecy tokens h s) g)

      -- What happens to the page: a gesture on what it renders, and the end of a transaction.
      unfoldable pub happens : Hooks d → Option Gesture → State → State
      happens h none s = change_page h confirmed s
      happens h (some g) s = changed_by h (fire (pool_page d x number wecy tokens h s) g) s

      unfoldable pub run_page : List (Hooks d × Option Gesture) → State → State
      run_page [] s = s
      run_page ((h, g) ∷ steps) s = run_page steps (happens h g s)
