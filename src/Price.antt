-- ===== src/Price.antt =====
-- `PriceService` of dex-indexer/src/services/PriceService.ts.
pub mod Float
pub mod Candle
pub mod Buckets
pub mod Rounds
