-- ===== src/Wallet/Pool/View/Possible.antt =====
-- What a rendering of the pool page can cause.
use mathlib.Core.List.{Memᴰ}
use energy_chain.Shared.{
  ℕ, suc, ◌≤◌, ◌≡◌, refl, Bool, true, false, List, [], ◌∷◌, Option, none, some, inl, inr,
  if◌then◌else◌, All, All-append, All-Mem, ◌⊎◌, leb→le,
}
use energy_chain.Shared.Text.{Text}
use energy_chain.Wallet.Units.{Token}
use energy_chain.Wallet.Display.{Display}
use energy_chain.Wallet.Selector.View.{token_selector-Only, is_none}
use energy_chain.Wallet.Markup.{Item, Gesture, fire, Only, when-Only, fire-Only}
use energy_chain.Wallet.Pool.{
  PoolInfo, Action, connect, enter, approve_a, approve_b, add, pool_token_addr,
}
use energy_chain.Wallet.Pool.Page.{price_info, positions, PageEvent, took_a, took_b}
use energy_chain.Wallet.Pool.View.{
  Reading, Side, side_a, side_b, State, Hooks, Click, scrolls, adds, closes_selector, approves,
  removes, toggles, slides_to, opens_selector, searches, picks, edits, is_at, busy,
}
use energy_chain.Wallet.Pool.View.Panels.{
  position_items, all_positions, positions_panel, rate_lines, side_items, action_item, table_row,
  table_rows, pools_panel, form_action, form_panel, pool_page,
}

module _ (d : Display) (x : Reading d) (wecy : Text) (h : Hooks d) (s : State) where
  -- An approval of the token whose button it is.
  abbrev pub IsOffered : Text → Type 0
  IsOffered token =
      ((form_action d x h s.page ≡ approve_a) × (token ≡ pool_token_addr wecy s.page.token_a))
      ⊎ ((form_action d x h s.page ≡ approve_b) × (token ≡ pool_token_addr wecy s.page.token_b))

  -- A transaction only while nothing is under way: an approval and an addition from the button of
  -- that action, a removal of a position of the account. A share only from 1 to 100.
  abbrev pub Possible : Click → Type 0
  Possible scrolls = Unit
  Possible adds = (form_action d x h s.page ≡ add) × (busy d h ≡ false)
  Possible closes_selector = Unit
  Possible (approves token) = IsOffered token × (busy d h ≡ false)
  Possible (removes pool) = Memᴰ pool (positions h.pools) × (busy d h ≡ false)
  Possible (toggles idx) = Unit
  Possible (slides_to percent) = (1 ≤ percent) × (percent ≤ 100)
  Possible (opens_selector side) = Unit
  Possible (searches query) = Unit
  Possible (picks t) = Unit
  Possible (edits e) = Unit

  abbrev O : Item Click → Type 0
  O = Only Possible

  module _ (number : ℕ → d.F) where
    position_items-Only :
        (idx : ℕ) (p : PoolInfo)
        → Memᴰ p (positions h.pools)
        → All O (position_items d number h s idx p)
    unfolding position_items
    position_items-Only idx p m = (
      tt,
      (
        tt,
        (
          tt,
          (
            (λ _. tt),
            when-Only Possible (is_at s.remove_pool_idx idx) _ (λ _.
                ((λ n lo hi. (leb→le 1 n lo, leb→le n 100 hi)), (tt, ((λ idle. (m, idle)), tt)))),
          ),
        ),
      ),
    )

    all_positions-Only :
        (idx : ℕ) (ps : List PoolInfo)
        → ((p : PoolInfo) → Memᴰ p ps → Memᴰ p (positions h.pools))
        → All O (all_positions d number h s idx ps)
    unfolding all_positions
    all_positions-Only idx [] sub = tt
    all_positions-Only idx (p ∷ ps) sub =
        All-append O (position_items d number h s idx p) _
          (position_items-Only idx p (sub p (Memᴰ.head refl)))
          (all_positions-Only (suc idx) ps (λ q m. sub q (Memᴰ.tail m)))

    shown-Only :
        (is_loading nothing : Bool) (a b c : List (Item Click))
        → All O a
        → All O b
        → All O c
        → All O (if is_loading then a else if nothing then b else c)
    shown-Only true nothing a b c ha hb hc = ha
    shown-Only false true a b c ha hb hc = hb
    shown-Only false false a b c ha hb hc = hc

    positions_panel-Only : All O (positions_panel d number h s)
    unfolding positions_panel
    positions_panel-Only = (
      tt,
      shown-Only h.is_loading (is_none (positions h.pools)) _ _ _ (tt, tt) (tt, ((λ _. tt), tt))
          (all_positions-Only 0 (positions h.pools) (λ p m. m)),
    )

    table_rows-Only : (ps : List PoolInfo) → All O (table_rows d ps)
    unfolding table_rows table_row
    table_rows-Only [] = tt
    table_rows-Only (p ∷ ps) =
        All-append O (table_row d p) _ (tt, (tt, (tt, (tt, tt)))) (table_rows-Only ps)

    pools_panel-Only : All O (pools_panel d h)
    unfolding pools_panel
    pools_panel-Only = (
      tt,
      shown-Only h.is_loading (is_none h.pools) _ _ _ (tt, tt) (tt, tt)
          (tt, (tt, (tt, (tt, table_rows-Only h.pools)))),
    )

  rate_lines-Only : (info : Option Text) → All O (rate_lines d info)
  unfolding rate_lines
  rate_lines-Only none = tt
  rate_lines-Only (some info) = (tt, (tt, tt))

  side_items-Only :
      (title : Text) (side : Side) (t : Token) (amount : Text) (balance : Option (ℕ × ℕ))
      (typed : Text → PageEvent) (took : PageEvent)
      → All O (side_items d title side t amount balance typed took)
  unfolding side_items
  side_items-Only title side t amount balance typed took =
      (tt, ((λ _. tt), ((λ _. tt), (tt, ((λ _. tt), tt)))))

  action_item-Only : (a : Action) → form_action d x h s.page ≡ a → O (action_item d wecy h s.page a)
  unfolding action_item
  action_item-Only connect e = tt
  action_item-Only enter e = tt
  action_item-Only approve_a e = λ idle. (inl (e, refl), idle)
  action_item-Only approve_b e = λ idle. (inr (e, refl), idle)
  action_item-Only add e = λ idle. (e, idle)

  form_panel-Only : All O (form_panel d x wecy h s.page)
  unfolding form_panel
  form_panel-Only =
      let p = s.page in
      (
        tt,
        All-append O (rate_lines d (price_info d p.token_a p.token_b h.pair_reserves)) _
            (rate_lines-Only (price_info d p.token_a p.token_b h.pair_reserves))
            (All-append O (side_items d _ side_a p.token_a _ h.balance_a _ (took_a h.balance_a)) _
              (side_items-Only _ side_a p.token_a _ h.balance_a _ (took_a h.balance_a))
              (All-append O (side_items d _ side_b p.token_b _ h.balance_b _ (took_b h.balance_b)) _
                (side_items-Only _ side_b p.token_b _ h.balance_b _ (took_b h.balance_b))
                (action_item-Only (form_action d x h p) refl, tt))),
      )

  module _ (number : ℕ → d.F) (tokens : List Token) where
    pool_page-Only : All O (pool_page d x number wecy tokens h s)
    unfolding pool_page
    pool_page-Only = All-append O (positions_panel d number h s) _ (positions_panel-Only number) (
        All-append O (form_panel d x wecy h s.page) _ form_panel-Only (
          All-append O (pools_panel d h) _ (pools_panel-Only number) (
            token_selector-Only Possible closes_selector searches picks tt (λ q. tt) _ s.query _
              tokens (All-Mem (λ t. Possible (picks t)) tokens (λ t m. tt)))))

    -- The event of a gesture is one of them.
    pub fire-Possible :
        (g : Gesture) (e : Click)
        → fire (pool_page d x number wecy tokens h s) g ≡ some e
        → Possible e
    fire-Possible g e = fire-Only Possible (pool_page d x number wecy tokens h s) g e pool_page-Only
