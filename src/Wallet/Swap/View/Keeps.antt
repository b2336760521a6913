-- ===== src/Wallet/Swap/View/Keeps.antt =====
-- What every history of the swap card keeps.
use mathlib.Core.List.{Memᴰ}
use energy_chain.Shared.{ℕ, ◌≡◌, refl, List, [], ◌∷◌, Option, none, some, inl, inr, Bool-cases}
use energy_chain.Shared.Int.{ℤ}
use energy_chain.Shared.Text.{Text, text_eq}
use energy_chain.Wallet.Units.{Units, Token}
use energy_chain.Wallet.Pool.Amounts.{IsAmount}
use energy_chain.Wallet.Settings.{IsTimely, apply-IsTimely}
use energy_chain.Wallet.Markup.{Gesture, fire}
use energy_chain.Wallet.Swap.{Form, flip, select_in, select_out}
use energy_chain.Wallet.Swap.Choice.{move, flipped, chose_in, chose_out}
use energy_chain.Wallet.Swap.Card.{
  Print, Event, typed, took_balance, moved, confirmed, on_event, IsForm, on_event-IsForm,
}
use energy_chain.Wallet.Swap.View.Possible.{Possible, PossibleEdit, fire-Possible}
use energy_chain.Wallet.Swap.View.{
  Card, Hooks, Click, opens_settings, closes_settings, closes_selector, approves, swaps,
  opens_selector, changes, searches, picks, edits, for_in, for_out, Target, on_select, swap_card,
  on_click, changed_by, happens, run_card,
}

-- Both tokens of the form are of the list.
abbrev pub FromList : List Token → Form → Type 0
FromList tokens f = Memᴰ f.token_in tokens × Memᴰ f.token_out tokens

-- Two tokens of the list with different addresses, an amount of digits and dots, and a deadline
-- between 1 and 180 minutes.
abbrev pub IsKept : (u : Units) → List Token → Card → Type 0
IsKept u tokens c = IsForm u c.form × FromList tokens c.form × IsTimely c.settings

on_select-FromList :
    (tokens : List Token) (target : Option Target) (t : Token) (f : Form)
    → Memᴰ t tokens
    → FromList tokens f
    → FromList tokens (on_select target t f)
unfolding on_select select_in select_out flip
on_select-FromList tokens none t f m h = h
on_select-FromList tokens (some for_in) t f m (a, b) =
    elim (Bool-cases (text_eq t.address f.token_out.address)) [
      | inl same ↦ rw same (b, a)
      | inr other ↦ rw other (m, b)
    ]
on_select-FromList tokens (some for_out) t f m (a, b) =
    elim (Bool-cases (text_eq t.address f.token_in.address)) [
      | inl same ↦ rw same (b, a)
      | inr other ↦ rw other (a, m)
    ]

on_event-FromList :
    (u : Units) (tokens : List Token) (e : Event) (f : Form)
    → PossibleEdit tokens e
    → FromList tokens f
    → FromList tokens (on_event u e f)
unfolding on_event move flip on_select
on_event-FromList u tokens (typed s) f p h = h
on_event-FromList u tokens (took_balance none) f p h = h
on_event-FromList u tokens (took_balance (some (value, decimals))) f p h = h
on_event-FromList u tokens (moved flipped) f p (a, b) = (b, a)
on_event-FromList u tokens (moved (chose_in t)) f p h =
    on_select-FromList tokens (some for_in) t f p h
on_event-FromList u tokens (moved (chose_out t)) f p h =
    on_select-FromList tokens (some for_out) t f p h
on_event-FromList u tokens confirmed f p h = h

module _ (u : Units) (printed : (n d : ℕ) → IsAmount (u.format_units n d)) where
  on_select-IsForm :
      (target : Option Target) (t : Token) (f : Form) → IsForm u f → IsForm u (on_select target t f)
  unfolding on_select on_event select_in select_out move
  on_select-IsForm none t f h = h
  on_select-IsForm (some for_in) t f h = on_event-IsForm u printed (moved (chose_in t)) f h
  on_select-IsForm (some for_out) t f h = on_event-IsForm u printed (moved (chose_out t)) f h

  -- What a handler changes keeps the card, if a rendering can cause it.
  on_click-IsKept :
      (tokens : List Token) (h : Hooks u) (c : Card) (e : Click)
      → Possible u tokens h c.form e
      → IsKept u tokens c
      → IsKept u tokens (on_click u e c)
  unfolding on_click on_event flip move
  on_click-IsKept tokens h c opens_settings p k = k
  on_click-IsKept tokens h c closes_settings p k = k
  on_click-IsKept tokens h c closes_selector p k = k
  on_click-IsKept tokens h c approves p k = k
  on_click-IsKept tokens h c swaps p k = k
  on_click-IsKept tokens h c (opens_selector target) p k = k
  on_click-IsKept tokens h c (searches s) p k = k
  on_click-IsKept tokens h c (changes s) p (form, listed, timely) =
      (form, listed, apply-IsTimely s c.settings timely)
  on_click-IsKept tokens h c (picks t) m (form, listed, timely) = (
    on_select-IsForm c.selector_target t c.form form,
    on_select-FromList tokens c.selector_target t c.form m listed,
    timely,
  )
  on_click-IsKept tokens h c (edits e) p (form, listed, timely) = (
    on_event-IsForm u printed e c.form form,
    on_event-FromList u tokens e c.form p listed,
    timely,
  )

  changed_by-IsKept :
      (tokens : List Token) (h : Hooks u) (c : Card) (o : Option Click)
      → ((e : Click) → o ≡ some e → Possible u tokens h c.form e)
      → IsKept u tokens c
      → IsKept u tokens (changed_by u o c)
  unfolding changed_by
  changed_by-IsKept tokens h c none p k = k
  changed_by-IsKept tokens h c (some e) p k = on_click-IsKept tokens h c e (p e refl) k

module _ (u : Units) (print : Print u) (signed : ℤ → ℕ → Text) (number : u.F → Text)
    (tokens : List Token) where
  happens-IsKept :
      (printed : (n d : ℕ) → IsAmount (u.format_units n d)) (h : Hooks u) (g : Option Gesture)
      (c : Card)
      → IsKept u tokens c
      → IsKept u tokens (happens u print signed number tokens h g c)
  unfolding happens
  happens-IsKept printed h none c (form, listed, timely) = (
    on_event-IsForm u printed confirmed c.form form,
    on_event-FromList u tokens confirmed c.form tt listed,
    timely,
  )
  happens-IsKept printed h (some g) c k =
      changed_by-IsKept u printed tokens h c (fire (swap_card u print signed number tokens h c) g)
        (fire-Possible u print signed number tokens h c g) k

-- If viem prints a balance with digits and dots only, then whatever gestures the user makes on what
-- the card renders, its selector and its settings included, whatever the hooks answer in between, and
-- however often a transaction is confirmed: from two tokens of the list with different addresses, an
-- amount of digits and dots and a deadline between 1 and 180 minutes the card keeps all of these.
pub run_card-IsKept :
    (u : Units) (print : Print u) (signed : ℤ → ℕ → Text) (number : u.F → Text)
    (tokens : List Token) (steps : List (Hooks u × Option Gesture)) (c : Card)
    → ((n d : ℕ) → IsAmount (u.format_units n d))
    → IsKept u tokens c
    → IsKept u tokens (run_card u print signed number tokens steps c)
unfolding run_card
run_card-IsKept u print signed number tokens [] c printed k = k
run_card-IsKept u print signed number tokens ((h, g) ∷ steps) c printed k =
    run_card-IsKept u print signed number tokens steps (happens u print signed number tokens h g c)
      printed (happens-IsKept u print signed number tokens printed h g c k)
