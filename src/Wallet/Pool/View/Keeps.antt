-- ===== src/Wallet/Pool/View/Keeps.antt =====
-- What every history of the pool page keeps.
use energy_chain.Shared.{ℕ, ◌≤◌, ◌≡◌, refl, List, [], ◌∷◌, Option, none, some}
use energy_chain.Shared.Text.{Text}
use energy_chain.Wallet.Units.{Token}
use energy_chain.Wallet.Display.{Display}
use energy_chain.Wallet.Markup.{Gesture, fire}
use energy_chain.Wallet.Pool.Page.{PageEvent, chose_a, chose_b, confirmed}
use energy_chain.Wallet.Pool.View.{
  Reading, side_a, side_b, Side, State, Hooks, Click, scrolls, adds, closes_selector, approves,
  removes, toggles, slides_to, opens_selector, searches, picks, edits,
}
use energy_chain.Wallet.Pool.View.Panels.{pool_page}
use energy_chain.Wallet.Pool.View.Possible.{Possible, fire-Possible}
use energy_chain.Wallet.Pool.View.Events.{
  change_page, on_select, on_pick, on_click, changed_by, happens, run_page,
}

-- A share from 1 to 100 percent.
abbrev pub IsKept : State → Type 0
IsKept s = (1 ≤ s.remove_percent) × (s.remove_percent ≤ 100)

module _ (d : Display) (x : Reading d) (scaled : d.F → d.F → d.F → Text) (h : Hooks d) where
  change_page-IsKept :
      (e : PageEvent) (s : State) → IsKept s → IsKept (change_page d x scaled h e s)
  unfolding change_page
  change_page-IsKept e s k = k

  on_select-IsKept :
      (sel : Option Side) (t : Token) (s : State)
      → IsKept s
      → IsKept (on_select d x scaled h sel t s)
  unfolding on_select
  on_select-IsKept none t s k = k
  on_select-IsKept (some side_a) t s k = change_page-IsKept (chose_a t) s k
  on_select-IsKept (some side_b) t s k = change_page-IsKept (chose_b t) s k

  -- What a handler changes keeps the page, if a rendering can cause it.
  on_click-IsKept :
      (wecy : Text) (e : Click) (s : State)
      → Possible d x wecy h s e
      → IsKept s
      → IsKept (on_click d x scaled h e s)
  unfolding on_click on_pick
  on_click-IsKept wecy scrolls s p k = k
  on_click-IsKept wecy adds s p k = k
  on_click-IsKept wecy closes_selector s p k = k
  on_click-IsKept wecy (approves token) s p k = k
  on_click-IsKept wecy (removes pool) s p k = k
  on_click-IsKept wecy (toggles idx) s p k = k
  on_click-IsKept wecy (slides_to percent) s p k = p
  on_click-IsKept wecy (opens_selector side) s p k = k
  on_click-IsKept wecy (searches query) s p k = k
  on_click-IsKept wecy (picks t) s p k = on_select-IsKept s.sel t s k
  on_click-IsKept wecy (edits e) s p k = change_page-IsKept e s k

  changed_by-IsKept :
      (wecy : Text) (o : Option Click) (s : State)
      → ((e : Click) → o ≡ some e → Possible d x wecy h s e)
      → IsKept s
      → IsKept (changed_by d x scaled h o s)
  unfolding changed_by
  changed_by-IsKept wecy none s p k = k
  changed_by-IsKept wecy (some e) s p k = on_click-IsKept wecy e s (p e refl) k

  happens-IsKept :
      (wecy : Text) (number : ℕ → d.F) (tokens : List Token) (g : Option Gesture) (s : State)
      → IsKept s
      → IsKept (happens d x scaled wecy number tokens h g s)
  unfolding happens
  happens-IsKept wecy number tokens none s k = change_page-IsKept confirmed s k
  happens-IsKept wecy number tokens (some g) s k =
      changed_by-IsKept wecy (fire (pool_page d x number wecy tokens h s) g) s
        (fire-Possible d x wecy h s number tokens g) k

-- Whatever gestures the user makes on what the page renders, whatever the hooks and the fetches answer
-- in between, and however often a transaction is confirmed: the share of the liquidity to remove stays
-- between 1 and 100 percent.
pub run_page-IsKept :
    (d : Display) (x : Reading d) (scaled : d.F → d.F → d.F → Text) (wecy : Text) (number : ℕ → d.F)
    (tokens : List Token) (steps : List (Hooks d × Option Gesture)) (s : State)
    → IsKept s
    → IsKept (run_page d x scaled wecy number tokens steps s)
unfolding run_page
run_page-IsKept d x scaled wecy number tokens [] s k = k
run_page-IsKept d x scaled wecy number tokens ((h, g) ∷ steps) s k =
    run_page-IsKept d x scaled wecy number tokens steps
      (happens d x scaled wecy number tokens h g s)
      (happens-IsKept d x scaled h wecy number tokens g s k)
