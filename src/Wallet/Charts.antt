-- ===== src/Wallet/Charts.antt =====
-- `ChartsPage` of dex-frontend/src/pages/ChartsPage.tsx: the trades of the pair, the candles of the
-- chart, the figures above it, and what is rendered. The printed time of a trade is left out.
pub mod Trades
pub mod Bars
pub mod Blocks
pub mod Times
pub mod Ascending
pub mod Figures
pub mod View
