-- ===== src/Wallet/Charts/Times.antt =====
-- The time that a trade gets.
use energy_chain.Shared.{
  ℕ, ◌≡◌, refl, ap, sym, ◌∙◌, Bool, true, List, [], ◌∷◌, Option, none, some, length, map, inl, All,
  arith,
}
use energy_chain.Price.Float.{Float}
use energy_chain.Wallet.Charts.Trades.{
  contains, unique_blocks, Cache, cached, cache_batch, TradeLog, log_time, trade_record,
  fetch_trades, sort_by,
}
use energy_chain.Wallet.Charts.Blocks.{
  block, unique_blocks-All, cache_batch-reads, fresh_entry, cache_blocks-eq, own_block, map_eq,
}

module _ (num : Float) (units : ℕ → num.F) (get_block : ℕ → Option ℕ) (now : TradeLog → ℕ) where
  log_time-eq :
      (c d : Cache) (log : TradeLog)
      → cached c (block log) ≡ cached d (block log)
      → log_time num units c now log ≡ log_time num units d now log
  unfolding log_time
  log_time-eq c d log e =
      ap (λ (o : Option ℕ). elim o as (λ _. ℕ) [ none ↦ now log | some t ↦ t ]) e

  trade_record-eq :
      (usdt_is_token0 : Bool) (c d : Cache) (log : TradeLog)
      → cached c (block log) ≡ cached d (block log)
      → trade_record num units usdt_is_token0 c now log
        ≡ trade_record num units usdt_is_token0 d now log
  unfolding trade_record
  trade_record-eq usdt_is_token0 c d log e = rw (log_time-eq c d log e) refl

  records :
      (usdt_is_token0 : Bool) (blocks : List ℕ) (logs : List TradeLog)
      → All (λ log. contains blocks (block log) ≡ true) logs
      → All
          (λ log.
            trade_record num units usdt_is_token0 (cache_batch get_block blocks []) now log
            ≡ trade_record num units usdt_is_token0 (own_block get_block log) now log)
          logs
  unfolding cached
  records usdt_is_token0 blocks [] h = tt
  records usdt_is_token0 blocks (log ∷ logs) (h, k) = (
    trade_record-eq usdt_is_token0 _ (own_block get_block log) log (
        cache_batch-reads get_block blocks [] (block log) h (inl refl)
        ∙ sym (fresh_entry get_block [] [] (block log) (inl refl))),
    records usdt_is_token0 blocks logs k,
  )

-- Reading each block once, in batches of 20, gives every trade the time that asking for its own
-- block gives it, and the time of the clock where that block is not read. All batches are read.
pub fetch_trades-eq :
    (num : Float) (units : ℕ → num.F) (get_block : ℕ → Option ℕ) (now : TradeLog → ℕ)
    (usdt_is_token0 : Bool) (logs : List TradeLog)
    → fetch_trades num units get_block now usdt_is_token0 logs
      ≡ sort_by
          (λ t. t.timestamp)
          (map
            (λ log. trade_record num units usdt_is_token0 (own_block get_block log) now log)
            logs)
unfolding fetch_trades
fetch_trades-eq num units get_block now usdt_is_token0 logs =
    let blocks = unique_blocks [] (map block logs) in
    ap
      (λ cache.
        sort_by (λ t. t.timestamp) (map (trade_record num units usdt_is_token0 cache now) logs))
      (cache_blocks-eq get_block (length blocks) blocks [] (omega arith))
    ∙ ap (sort_by (λ t. t.timestamp)) (
        map_eq get_block _ _ logs
          (records num units get_block now usdt_is_token0 blocks logs (unique_blocks-All [] logs)))
