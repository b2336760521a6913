-- ===== src/Wallet/Swap/View/Sends.antt =====
-- What a gesture on the swap card sends.
use energy_chain.Shared.{
  ℕ, ◌+◌, ◌≤◌, ◌<◌, ◌≡◌, ◌≢◌, refl, sym, ◌∙◌, true, false, List, Option, none, some, arith, inl,
  inr, ◌⊎◌, Option-cases,
}
use mathlib.Core.Option.{none-ne-some, some-injective}
use energy_chain.Shared.Int.{ℤ}
use energy_chain.Shared.Text.{Text}
use energy_chain.Wallet.Units.{Units, Token, has_text, float_or_zero}
use energy_chain.Wallet.Markup.{Gesture, fire}
use energy_chain.Wallet.Swap.{
  Form, Account, approve, swap, Call, approve_router, or_zero, token_addr, path, amount_in_units,
  min_received, needs_approval, has_amount, is_insufficient, balance_number, action, handle_approve,
  handle_swap,
}
use energy_chain.Wallet.Swap.Amounts.{terms, handle_swap-terms}
use energy_chain.Wallet.Swap.Card.{Print}
use energy_chain.Wallet.Swap.View.Possible.{Possible, fire-Possible}
use energy_chain.Wallet.Swap.View.{
  Card, Hooks, Click, opens_settings, closes_settings, closes_selector, approves, swaps,
  opens_selector, changes, searches, picks, edits, busy, swap_card, sends, sent_by, card_call,
}

-- The approval of the first token, which the router's allowance does not cover.
abbrev pub IsApproval : (u : Units) → Text → Form → Account → Call → Type 0
IsApproval u wecy f a c =
    (c ≡ approve_router (token_addr wecy f.token_in))
    × (f.token_in.is_native ≡ false)
    × (or_zero a.allowance < amount_in_units u f)

-- The swap of the parsed amount, which is native or covered, for at least the least amount, on the
-- path of the two tokens, to the account itself, within 1200 seconds.
abbrev pub IsSwap : (u : Units) → Text → Hooks u → Form → Call → Type 0
IsSwap u wecy h f c =
    (to : Text) × (h.account.address ≡ some to)
    × ((f.token_in.is_native ≡ true) ⊎ (amount_in_units u f ≤ or_zero h.account.allowance))
    × (terms c
        ≡ some (
          amount_in_units u f,
          min_received u h.slippage h.account,
          path wecy f,
          to,
          h.now + 1200,
        ))

-- The account's balance of the first token as the card reads it, where it reads one: of no balance
-- 0, and of a text that does not parse nothing.
abbrev pub IsBalance : (u : Units) → Account → u.F → Type 0
IsBalance u a b =
    ((a.balance_in ≡ none) × (b ≡ u.zero_f))
    ⊎ ((value : ℕ) × (decimals : ℕ) × (a.balance_in ≡ some (value, decimals))
        × (u.float_of (u.format_units value decimals) ≡ some b))

-- No transaction waits for its signature or its confirmation, the account is connected, and the text
-- of the amount is not blank and is read as a positive number, than which no balance is less.
abbrev pub IsReady : (u : Units) → Hooks u → Form → Type 0
IsReady u h f =
    (h.is_sending ≡ false)
    × (h.is_confirming ≡ false)
    × (h.account.is_connected ≡ true)
    × (has_text f.amount_in ≡ true)
    × (amount : u.F) × (amount ≡ float_or_zero u f.amount_in)
    × (u.less u.zero_f amount ≡ true)
    × ((b : u.F) → IsBalance u h.account b → u.less b amount ≡ false)

busy-idle :
    (u : Units) (h : Hooks u)
    → busy u h ≡ false
    → (h.is_sending ≡ false) × (h.is_confirming ≡ false)
unfolding busy
busy-idle u h e = ground arith

is_insufficient-less :
    (u : Units) (f : Form) (a : Account) (b : u.F)
    → a.is_connected ≡ true
    → has_amount u f ≡ true
    → is_insufficient u f a ≡ false
    → IsBalance u a b
    → u.less b (float_or_zero u f.amount_in) ≡ false
unfolding is_insufficient balance_number
is_insufficient-less u f a b connected amount e (inl (nothing, zero_b)) =
    let read : u.less u.zero_f (float_or_zero u f.amount_in) ≡ false =
      rw (connected, amount, nothing) at e in
    rw zero_b read
is_insufficient-less u f a b connected amount e (inr (value, decimals, answered, parsed)) =
    rw (connected, amount, answered, parsed) at e

has_amount-less :
    (u : Units) (f : Form)
    → has_amount u f ≡ true
    → (has_text f.amount_in ≡ true) × (u.less u.zero_f (float_or_zero u f.amount_in) ≡ true)
unfolding has_amount
has_amount-less u f e = ground arith

ready :
    (u : Units) (h : Hooks u) (f : Form)
    → busy u h ≡ false
    → h.account.is_connected ≡ true
    → has_amount u f ≡ true
    → is_insufficient u f h.account ≡ false
    → IsReady u h f
ready u h f idle connected amount enough =
    let (signed, confirmed) = busy-idle u h idle in
    let (text, positive) = has_amount-less u f amount in
    (
      signed,
      confirmed,
      connected,
      text,
      float_or_zero u f.amount_in,
      refl,
      positive,
      λ b k. is_insufficient-less u f h.account b connected amount enough k,
    )

abbrev pub IsSound : (u : Units) → Text → Hooks u → Form → Call → Type 0
IsSound u wecy h f c = IsReady u h f × (IsApproval u wecy f h.account c ⊎ IsSwap u wecy h f c)

action-approve_lem :
    (u : Units) (f : Form) (a : Account)
    → action u f a ≡ approve
    → (a.is_connected ≡ true)
      × (has_amount u f ≡ true)
      × (is_insufficient u f a ≡ false)
      × (f.token_in.is_native ≡ false)
      × (or_zero a.allowance < amount_in_units u f)
unfolding action needs_approval
action-approve_lem u f a e = ground arith

action-swap_lem :
    (u : Units) (f : Form) (a : Account)
    → action u f a ≡ swap
    → (a.is_connected ≡ true)
      × (has_amount u f ≡ true)
      × (is_insufficient u f a ≡ false)
      × ((f.token_in.is_native ≡ true) ⊎ (amount_in_units u f ≤ or_zero a.allowance))
unfolding action needs_approval
action-swap_lem u f a e = ground arith

-- A swap that is sent has an account and an amount.
handle_swap-needs :
    (u : Units) (wecy : Text) (slippage : u.F) (now : ℕ) (f : Form) (a : Account) (c : Call)
    → handle_swap u wecy slippage now f a ≡ some c
    → (to : Text) × (a.address ≡ some to) × (amount_in_units u f ≢ 0)
unfolding handle_swap
handle_swap-needs u wecy slippage now f a c e = elim (Option-cases a.address) [
  | inl nobody ↦ elim (none-ne-some c (rw nobody at e)) [ ]
  | inr (to, somebody) ↦ (to, somebody, ground arith)
]

handle_swap-IsSwap :
    (u : Units) (wecy : Text) (h : Hooks u) (f : Form) (c : Call)
    → (f.token_in.is_native ≡ true) ⊎ (amount_in_units u f ≤ or_zero h.account.allowance)
    → handle_swap u wecy h.slippage h.now f h.account ≡ some c
    → IsSwap u wecy h f c
handle_swap-IsSwap u wecy h f c covered e =
    let (to, somebody, amount) = handle_swap-needs u wecy h.slippage h.now f h.account c e in
    let (d, sent, agreed) =
      handle_swap-terms u wecy to h.slippage h.now f h.account somebody amount in
    let same : d ≡ c = some-injective d c (sym sent ∙ e) in
    (to, somebody, covered, cc (agreed, same))

-- What a handler sends is sound, if a rendering can cause it.
sends-IsSound :
    (u : Units) (wecy : Text) (tokens : List Token) (h : Hooks u) (f : Form) (e : Click) (c : Call)
    → Possible u tokens h f e
    → sends u wecy h f e ≡ some c
    → IsSound u wecy h f c
unfolding sends handle_approve
sends-IsSound u wecy tokens h f approves c (offered, idle) e =
    let (connected, amount, enough, plain, uncovered) = action-approve_lem u f h.account offered in
    (ready u h f idle connected amount enough, inl (sym (some-injective _ c e), plain, uncovered))
sends-IsSound u wecy tokens h f swaps c (offered, idle) e =
    let (connected, amount, enough, covered) = action-swap_lem u f h.account offered in
    (ready u h f idle connected amount enough, inr (handle_swap-IsSwap u wecy h f c covered e))
sends-IsSound u wecy tokens h f opens_settings c p e = elim (none-ne-some c e) [ ]
sends-IsSound u wecy tokens h f closes_settings c p e = elim (none-ne-some c e) [ ]
sends-IsSound u wecy tokens h f closes_selector c p e = elim (none-ne-some c e) [ ]
sends-IsSound u wecy tokens h f (opens_selector target) c p e = elim (none-ne-some c e) [ ]
sends-IsSound u wecy tokens h f (changes s) c p e = elim (none-ne-some c e) [ ]
sends-IsSound u wecy tokens h f (searches s) c p e = elim (none-ne-some c e) [ ]
sends-IsSound u wecy tokens h f (picks t) c p e = elim (none-ne-some c e) [ ]
sends-IsSound u wecy tokens h f (edits a) c p e = elim (none-ne-some c e) [ ]

sent_by-IsSound :
    (u : Units) (wecy : Text) (tokens : List Token) (h : Hooks u) (f : Form) (o : Option Click)
    (call : Call)
    → ((e : Click) → o ≡ some e → Possible u tokens h f e)
    → sent_by u wecy h f o ≡ some call
    → IsSound u wecy h f call
unfolding sent_by
sent_by-IsSound u wecy tokens h f none call p e = elim (none-ne-some call e) [ ]
sent_by-IsSound u wecy tokens h f (some click) call p e =
    sends-IsSound u wecy tokens h f click call (p click refl) e

-- No gesture on a rendering of the card, wherever it is made, sends anything unless no transaction
-- waits for its signature or its confirmation, the account is connected, and the amount is read as a
-- positive number that is not above its balance, where the balance is read. What it sends then is either the approval of the first token, which is not native and whose allowance does not
-- cover the amount, or the swap of exactly the amount, which is native or covered, for at least the
-- least amount, on the path of the two tokens, to the account itself, within 1200 seconds.
pub card_call-IsSound :
    (u : Units) (wecy : Text) (print : Print u) (signed : ℤ → ℕ → Text) (number : u.F → Text)
    (tokens : List Token) (h : Hooks u) (c : Card) (g : Gesture) (call : Call)
    → card_call u print signed number tokens wecy h c g ≡ some call
    → IsSound u wecy h c.form call
unfolding card_call
card_call-IsSound u wecy print signed number tokens h c g call e =
    sent_by-IsSound u wecy tokens h c.form (fire (swap_card u print signed number tokens h c) g)
      call (fire-Possible u print signed number tokens h c g) e
