-- ===== src/Wallet/Swap/Choice.antt =====
-- The two tokens of a swap.
use energy_chain.Shared.{◌≡◌, ◌≢◌, sym, true, false, List, [], ◌∷◌, arith}
use energy_chain.Shared.Text.{Text, text_eq_iff}
use energy_chain.Wallet.Units.{Token}
use energy_chain.Wallet.Swap.{Form, flip, select_in, select_out, path}

-- What the user can do to the tokens.
pub data Move : Type 0 where
  flipped : Move
  chose_in chose_out : Token → Move

unfoldable pub move : Move → Form → Form
unfolding flip select_in select_out
move flipped = flip
move (chose_in t) = select_in t
move (chose_out t) = select_out t

pub moves : List Move → Form → Form
moves [] f = f
moves (m ∷ ms) f = moves ms (move m f)

pub move-ne :
    (m : Move) (f : Form)
    → f.token_in.address ≢ f.token_out.address
    → (move m f).token_in.address ≢ (move m f).token_out.address
unfolding move
move-ne flipped f h = λ e. h (sym e)
move-ne (chose_in t) f h = ground (arith, text_eq_iff t.address f.token_out.address)
move-ne (chose_out t) f h = ground (arith, text_eq_iff t.address f.token_in.address)

-- However the user flips and selects, the two tokens keep different addresses.
pub moves-ne :
    (ms : List Move) (f : Form)
    → f.token_in.address ≢ f.token_out.address
    → (moves ms f).token_in.address ≢ (moves ms f).token_out.address
unfolding moves
moves-ne [] f h = h
moves-ne (m ∷ ms) f h = moves-ne ms (move m f) (move-ne m f h)

-- Their path can still name one token twice: the native token stands for its wrapped form, which
-- the user can select as the other token.
pub path-degenerate :
    (wecy : Text) (f : Form) (t : Token)
    → f.token_in.is_native ≡ true
    → f.token_in.address ≢ wecy
    → t.is_native ≡ false
    → t.address ≡ wecy
    → path wecy (select_out t f) ≡ wecy ∷ wecy ∷ []
unfolding path select_out
path-degenerate wecy f t native ne plain same =
    ground (arith, text_eq_iff t.address f.token_in.address)
