-- ===== src/Wallet/Settings/View.antt =====
-- What `SwapSettings` of dex-frontend/src/components/swap/SwapSettings.tsx renders, over the store of
-- Settings. `close` is its `onClose`, and `change` calls a setter of the store.
use energy_chain.Shared.{◌+◌, Bool, true, false, List, [], ◌∷◌, ◌++◌, All, All-append}
use energy_chain.Shared.Int.{ℤ, pos, negsuc}
use energy_chain.Shared.Text.{Text, codes}
use energy_chain.Shared.Number.{to_string, parse_int}
use energy_chain.Wallet.Markup.{Item, shows, choice, button, words, field, when, Only, when-Only}
use energy_chain.Wallet.Settings.{
  Preset, tenth, half, one, custom, Settings, Setting, preset_to, custom_to, deadline_to,
}
use energy_chain.Wallet.Selector.{minutes_or}

-- The literals of `SlippagePreset`.
abbrev pub preset_text : Preset → Text
preset_text tenth = codes "0.1"
preset_text half = codes "0.5"
preset_text one = codes "1"
preset_text custom = codes "custom"

-- `slippagePreset === p`
unfoldable pub is_preset : Preset → Preset → Bool
is_preset tenth tenth = true
is_preset half half = true
is_preset one one = true
is_preset custom custom = true
is_preset tenth _ = false
is_preset half _ = false
is_preset one _ = false
is_preset custom _ = false

-- A whole number in a template or a field.
abbrev pub minutes_text : ℤ → Text
minutes_text (pos n) = to_string n
minutes_text (negsuc n) = codes "-" ++ to_string (n + 1)

module _ {E : Type 0} (close : E) (change : Setting → E) where
  -- A preset of the list `presets`.
  unfoldable pub preset_item : Settings → Preset → Item E
  preset_item s p =
      choice (is_preset s.preset p) (change (preset_to p)) ((preset_text p ++ codes "%") ∷ [])

  -- The component; what is not open renders nothing.
  unfoldable pub swap_settings : Bool → Settings → List (Item E)
  swap_settings is_open s = when is_open (
      (button false close (words (codes "Close settings"))
        ∷ shows (codes "Transaction settings")
        ∷ button false close (words (codes "Close"))
        ∷ shows (codes "Slippage tolerance")
        ∷ preset_item s tenth
        ∷ preset_item s half
        ∷ preset_item s one
        ∷ choice (is_preset s.preset custom) (change (preset_to custom)) (codes "Custom" ∷ [])
        ∷ [])
      ++ (when (is_preset s.preset custom) (
            field s.custom_slippage (codes "0.50") (λ v. change (custom_to v))
            ∷ shows (codes "%")
            ∷ [])
          ++ shows (codes "Transaction deadline")
            ∷ field (minutes_text s.deadline_minutes) []
                (λ v. change (deadline_to (minutes_or (parse_int v))))
            ∷ shows (codes "minutes")
            ∷ []))

module _ {κ} {E : Type 0} (P : E → Type κ) (close : E) (change : Setting → E) (closes : P close)
    (changes : (c : Setting) → P (change c)) where
  -- What holds of its handlers holds of all that it can cause.
  pub swap_settings-Only :
      (is_open : Bool) (s : Settings) → All (Only P) (swap_settings close change is_open s)
  unfolding swap_settings preset_item
  swap_settings-Only is_open s =
      let shown = is_preset s.preset custom in
      let on_deadline = (λ (v : Text). changes (deadline_to (minutes_or (parse_int v)))) in
      let on_custom = (λ (v : Text). changes (custom_to v)) in
      let rest =
        All-append (Only P) (when shown _) _ (when-Only P shown _ (λ _. (on_custom, (tt, tt))))
          (tt, (on_deadline, (tt, tt))) in
      when-Only P is_open _ (λ _. (
        (λ _. closes),
        (
          tt,
          (
            (λ _. closes),
            (
              tt,
              (
                changes (preset_to tenth),
                (
                  changes (preset_to half),
                  (changes (preset_to one), (changes (preset_to custom), rest)),
                ),
              ),
            ),
          ),
        ),
      ))
