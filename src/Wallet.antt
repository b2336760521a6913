-- ===== src/Wallet.antt =====
-- The pages of dex-frontend: the settings, the swap card, the pool page, the charts, the transfer, and
-- the farm, the tokens and the portfolio.
pub mod App
pub mod Units
pub mod Settings
pub mod Swap
pub mod Pool
pub mod Charts
pub mod Transfer
pub mod Display
pub mod Farm
pub mod Tokens
pub mod Portfolio
pub mod Markup
pub mod Selector
pub mod Format
