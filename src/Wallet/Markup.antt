-- ===== src/Wallet/Markup.antt =====
-- What the components of dex-frontend/src render, in the order of the document, without the tags and
-- the styles that only lay it out, and without icons. A rendering has the handlers that its buttons
-- and fields call, as events of the page.
use energy_chain.Shared.{
  ℕ, zero, suc, ◌≡◌, refl, Bool, true, false, ◌&&◌, List, [], ◌∷◌, Option, none, some, leb,
  if◌then◌else◌, All, inl, inr, Bool-cases, subst,
}
use mathlib.Core.Option.{none-ne-some, some-injective}
use energy_chain.Shared.Text.{Text}

-- What a button shows: words, or the turning icon of something that goes on (`Loader2`).
pub data Label : Type 0 where
  words : (s : Text) → Label
  spinner : Label

-- `dead` is a button that is disabled and has no handler; `choice` is a button that shows whether it
-- is the chosen one; `connect_wallet` is rainbowkit's `ConnectButton`, and
-- `loading` is a turning icon that stands alone.
pub data Item (E : Type 0) : Type 0 where
  shows : (s : Text) → Item E
  connect_wallet : Item E
  loading : Item E
  dead : (s : Text) → Item E
  button : (disabled : Bool) (on_click : E) (label : Label) → Item E
  choice : (active : Bool) (on_click : E) (texts : List Text) → Item E
  field : (value placeholder : Text) (on_change : Text → E) → Item E
  slider : (lo hi value : ℕ) (on_change : ℕ → E) → Item E

-- What the user does to the item at a place of the rendering.
pub data Gesture : Type 0 where
  press : (place : ℕ) → Gesture
  enter_text : (place : ℕ) (s : Text) → Gesture
  slide : (place n : ℕ) → Gesture

-- What the pages that only show something can cause.
pub data Refresh : Type 0 where
  refreshes : Refresh

module _ {E : Type 0} where
  -- `b && …`
  unfoldable pub when : Bool → List (Item E) → List (Item E)
  when b items = if b then items else []

  unfoldable pub pressed : Item E → Option E
  pressed (shows s) = none
  pressed connect_wallet = none
  pressed loading = none
  pressed (dead s) = none
  pressed (button disabled e label) = if disabled then none else some e
  pressed (choice active e s) = some e
  pressed (field value placeholder on_change) = none
  pressed (slider lo hi value on_change) = none

  unfoldable pub entered : Text → Item E → Option E
  entered text (shows s) = none
  entered text connect_wallet = none
  entered text loading = none
  entered text (dead s) = none
  entered text (button disabled e label) = none
  entered text (choice active e s) = none
  entered text (field value placeholder on_change) = some (on_change text)
  entered text (slider lo hi value on_change) = none

  -- A range gives only whole numbers between its bounds.
  unfoldable pub slid : ℕ → Item E → Option E
  slid n (shows s) = none
  slid n connect_wallet = none
  slid n loading = none
  slid n (dead s) = none
  slid n (button disabled e label) = none
  slid n (choice active e s) = none
  slid n (field value placeholder on_change) = none
  slid n (slider lo hi value on_change) = if leb lo n && leb n hi then some (on_change n) else none

  at_place : (Item E → Option E) → ℕ → List (Item E) → Option E
  at_place f n [] = none
  at_place f zero (i ∷ items) = f i
  at_place f (suc n) (i ∷ items) = at_place f n items

  -- The event that a gesture on a rendering causes, if any.
  unfoldable pub fire : List (Item E) → Gesture → Option E
  unfolding at_place pressed entered slid
  fire items (press place) = at_place pressed place items
  fire items (enter_text place s) = at_place (entered s) place items
  fire items (slide place n) = at_place (slid n) place items

  -- Every event that an item can cause satisfies P.
  abbrev pub Only {κ} : (E → Type κ) → Item E → Type κ
  Only P (shows s) = Unit
  Only P connect_wallet = Unit
  Only P loading = Unit
  Only P (dead s) = Unit
  Only P (button disabled e label) = disabled ≡ false → P e
  Only P (choice active e s) = P e
  Only P (field value placeholder on_change) = (s : Text) → P (on_change s)
  Only P (slider lo hi value on_change) =
      (n : ℕ) → leb lo n ≡ true → leb n hi ≡ true → P (on_change n)

module _ {κ} {E : Type 0} (P : E → Type κ) where
  no_event : (e : E) → none ≡ some e → P e
  no_event e h = elim (none-ne-some e h) [ ]

  same_event : (a e : E) → some a ≡ some e → P a → P e
  same_event a e h p = subst P (some-injective a e h) p

  pressed-Only : (i : Item E) (e : E) → Only P i → pressed i ≡ some e → P e
  unfolding pressed
  pressed-Only (shows s) e o h = no_event e h
  pressed-Only connect_wallet e o h = no_event e h
  pressed-Only loading e o h = no_event e h
  pressed-Only (dead s) e o h = no_event e h
  pressed-Only (button true a label) e o h = no_event e h
  pressed-Only (button false a label) e o h = same_event a e h (o refl)
  pressed-Only (choice active a s) e o h = same_event a e h o
  pressed-Only (field value placeholder on_change) e o h = no_event e h
  pressed-Only (slider lo hi value on_change) e o h = no_event e h

  entered-Only : (s : Text) (i : Item E) (e : E) → Only P i → entered s i ≡ some e → P e
  unfolding entered
  entered-Only s (shows t) e o h = no_event e h
  entered-Only s connect_wallet e o h = no_event e h
  entered-Only s loading e o h = no_event e h
  entered-Only s (dead t) e o h = no_event e h
  entered-Only s (button disabled a label) e o h = no_event e h
  entered-Only s (choice active a t) e o h = no_event e h
  entered-Only s (field value placeholder on_change) e o h = same_event (on_change s) e h (o s)
  entered-Only s (slider lo hi value on_change) e o h = no_event e h

  in_range :
      (n lo hi : ℕ) (on_change : ℕ → E) (e : E)
      → Only P (slider lo hi n on_change)
      → (if leb lo n && leb n hi then some (on_change n) else none) ≡ some e
      → P e
  in_range n lo hi on_change e o h = elim (Bool-cases (leb lo n)) [
    | inl above ↦ elim (Bool-cases (leb n hi)) [
      | inl below ↦ same_event (on_change n) e (rw (above, below) at h) (o n above below)
      | inr beyond ↦ no_event e (rw (above, beyond) at h)
    ]
    | inr below ↦ no_event e (rw below at h)
  ]

  slid-Only : (n : ℕ) (i : Item E) (e : E) → Only P i → slid n i ≡ some e → P e
  unfolding slid
  slid-Only n (shows s) e o h = no_event e h
  slid-Only n connect_wallet e o h = no_event e h
  slid-Only n loading e o h = no_event e h
  slid-Only n (dead s) e o h = no_event e h
  slid-Only n (button disabled a label) e o h = no_event e h
  slid-Only n (choice active a s) e o h = no_event e h
  slid-Only n (field value placeholder on_change) e o h = no_event e h
  slid-Only n (slider lo hi value on_change) e o h = in_range n lo hi on_change e o h

  at_place-Only :
      (f : Item E → Option E) (place : ℕ) (items : List (Item E)) (e : E)
      → ((i : Item E) (e : E) → Only P i → f i ≡ some e → P e)
      → All (Only P) items
      → at_place f place items ≡ some e
      → P e
  unfolding at_place
  at_place-Only f n [] e each o h = no_event e h
  at_place-Only f zero (i ∷ items) e each (o, _) h = each i e o h
  at_place-Only f (suc n) (i ∷ items) e each (_, o) h = at_place-Only f n items e each o h

  -- What holds of every event that an item can cause holds of the event of every gesture.
  pub fire-Only :
      (items : List (Item E)) (g : Gesture) (e : E)
      → All (Only P) items
      → fire items g ≡ some e
      → P e
  unfolding fire
  fire-Only items (press place) e o h = at_place-Only pressed place items e pressed-Only o h
  fire-Only items (enter_text place s) e o h =
      at_place-Only (entered s) place items e (entered-Only s) o h
  fire-Only items (slide place n) e o h = at_place-Only (slid n) place items e (slid-Only n) o h

  pub when-Only :
      (b : Bool) (items : List (Item E))
      → (b ≡ true → All (Only P) items)
      → All (Only P) (when b items)
  unfolding when
  when-Only true items o = o refl
  when-Only false items o = tt
