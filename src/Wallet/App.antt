-- ===== src/Wallet/App.antt =====
-- `App` of dex-frontend/src/App.tsx and `Navbar` of dex-frontend/src/components/common/Navbar.tsx: the
-- pages by their paths, and the navigation. Which link is the active one is the router's answer.
use energy_chain.Shared.{
  ℕ, ◌≡◌, ◌≢◌, refl, Bool, false, not, ◌&&◌, List, [], ◌∷◌, ◌++◌, Option, none, some, ◌==◌,
  if◌then◌else◌, arith, All, All-append,
}
use energy_chain.Shared.Text.{Text, codes, text_eq}
use energy_chain.Shared.Number.{to_string}
use energy_chain.Wallet.Markup.{
  Item, shows, connect_wallet, button, choice, words, when, Gesture, fire, Only, fire-Only,
}

pub data Page : Type 0 where
  swap_page pool_page charts_page tokens_page portfolio_page transfer_page farm_page : Page

-- `Routes`, on the paths as they are written; `none` is a path without a page.
unfoldable pub page_at : Text → Option Page
page_at path =
    if text_eq path (codes "/")
    then some swap_page
    else if text_eq path (codes "/pool")
    then some pool_page
    else if text_eq path (codes "/charts")
    then some charts_page
    else if text_eq path (codes "/tokens")
    then some tokens_page
    else if text_eq path (codes "/portfolio")
    then some portfolio_page
    else if text_eq path (codes "/transfer")
    then some transfer_page
    else if text_eq path (codes "/farm")
    then some farm_page
    else none

-- A link with its path and its label.
pub record Link : Type 0 where
  pub to : Text
  pub label : Text

-- `links`
unfoldable pub links : List Link
links =
    record { to = codes "/"; label = codes "Swap" }
    ∷ record { to = codes "/pool"; label = codes "Pool" }
    ∷ record { to = codes "/charts"; label = codes "Charts" }
    ∷ record { to = codes "/tokens"; label = codes "Tokens" }
    ∷ record { to = codes "/farm"; label = codes "Farm" }
    ∷ record { to = codes "/portfolio"; label = codes "Portfolio" }
    ∷ record { to = codes "/transfer"; label = codes "Transfer" }
    ∷ []

-- The path of the router, and whether the menu of the narrow layout is open.
pub record Place : Type 0 where
  pub path : Text
  pub menu_open : Bool

pub data Click : Type 0 where
  goes_to : (path : Text) → Click
  closes_and_goes_to : (path : Text) → Click
  toggles_menu : Click

unfoldable pub on_click : Click → Place → Place
on_click (goes_to path) p = record p { path = path }
on_click (closes_and_goes_to path) p = record { path = path; menu_open = false }
on_click toggles_menu p = record p { menu_open = not p.menu_open }

unfoldable pub moved_by : Option Click → Place → Place
moved_by none p = p
moved_by (some e) p = on_click e p

-- There is a page at the path.
abbrev pub HasPage : Place → Type 0
HasPage p = page_at p.path ≢ none

-- `is_active exact to path` is the router's `isActive` of a link with `end` or without.
module _ (is_active : Bool → Text → Text → Bool) where
  unfoldable pub link_items : (Link → Bool) → (Text → Click) → Text → List Link → List (Item Click)
  link_items exact go path [] = []
  link_items exact go path (l ∷ ls) =
      choice (is_active (exact l) l.to path) (go l.to) (l.label ∷ []) ∷ link_items exact go path ls

  -- The links of the wide layout have `end` on the first path; those of the menu have it nowhere. The
  -- menu is always rendered, and folded while it is closed.
  unfoldable pub navbar : Place → List (Item Click)
  navbar p =
      (choice (is_active false (codes "/") p.path) (closes_and_goes_to (codes "/"))
          (codes "EnergySwap" ∷ [])
        ∷ [])
      ++ (link_items (λ l. text_eq l.to (codes "/")) goes_to p.path links
          ++ ((connect_wallet
                ∷ button false toggles_menu
                    (words (if p.menu_open then codes "Close menu" else codes "Open menu"))
                ∷ [])
              ++ (link_items (λ l. false) closes_and_goes_to p.path links ++ connect_wallet ∷ [])))

  -- The banner of a connected wallet on another chain, and the navigation.
  unfoldable pub app : Bool → ℕ → ℕ → Place → List (Item Click)
  app is_connected chain_id expected p =
      when (is_connected && not (chain_id == expected)) (
        shows (
          codes "Wrong network detected. Please switch to EnergyChain (Chain ID: "
          ++ (to_string expected ++ codes ")."))
        ∷ [])
      ++ navbar p

  unfoldable pub visit : List Gesture → Place → Place
  visit [] p = p
  visit (g ∷ gs) p = visit gs (moved_by (fire (navbar p) g) p)

links-lead : All (λ l. page_at l.to ≢ none) links
unfolding links page_at
links-lead = (
  (λ e. ground arith),
  (
    (λ e. ground arith),
    (
      (λ e. ground arith),
      (
        (λ e. ground arith),
        ((λ e. ground arith), ((λ e. ground arith), ((λ e. ground arith), tt))),
      ),
    ),
  ),
)

module _ (is_active : Bool → Text → Text → Bool) (p : Place) (here : HasPage p) where
  -- A click keeps a page at the path.
  abbrev Keeps : Click → Type 0
  Keeps e = HasPage (on_click e p)

  link_items-Keeps :
      (exact : Link → Bool) (go : Text → Click) (path : Text) (ls : List Link)
      → All (λ l. Keeps (go l.to)) ls
      → All (Only Keeps) (link_items is_active exact go path ls)
  unfolding link_items
  link_items-Keeps exact go path [] h = tt
  link_items-Keeps exact go path (l ∷ ls) (k, h) = (k, link_items-Keeps exact go path ls h)

  navbar-Keeps : All (Only Keeps) (navbar is_active p)
  unfolding navbar on_click links
  navbar-Keeps = (
    links-lead.0,
    All-append (Only Keeps) (link_items is_active _ goes_to p.path links) _
        (link_items-Keeps _ goes_to p.path links links-lead)
        (
          tt,
          (
            (λ _. here),
            All-append (Only Keeps) (link_items is_active _ closes_and_goes_to p.path links) _
                (link_items-Keeps _ closes_and_goes_to p.path links links-lead) (tt, tt),
          ),
        ),
  )

  moved_by-HasPage :
      (o : Option Click) → ((e : Click) → o ≡ some e → Keeps e) → HasPage (moved_by o p)
  unfolding moved_by
  moved_by-HasPage none h = here
  moved_by-HasPage (some e) h = h e refl

-- Wherever the user clicks in the navigation, in whatever order, there is a page at the path.
pub visit-HasPage :
    (is_active : Bool → Text → Text → Bool) (gs : List Gesture) (p : Place)
    → HasPage p
    → HasPage (visit is_active gs p)
unfolding visit
visit-HasPage is_active [] p here = here
visit-HasPage is_active (g ∷ gs) p here =
    visit-HasPage is_active gs (moved_by (fire (navbar is_active p) g) p) (
      moved_by-HasPage is_active p here (fire (navbar is_active p) g) (λ e.
        fire-Only (Keeps is_active p here) (navbar is_active p) g e
          (navbar-Keeps is_active p here)))
