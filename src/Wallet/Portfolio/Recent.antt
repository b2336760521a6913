-- ===== src/Wallet/Portfolio/Recent.antt =====
-- The recent swaps of an account.
use mathlib.Core.List.{Memᴰ}
use energy_chain.Shared.{
  ℕ, zero, suc, ◌≤◌, ◌≡◌, refl, true, List, [], ◌∷◌, take, length, leb, All, All-append, Bool-cases,
  Option-cases, some, inl, inr, ◌⊎◌, arith,
}
use energy_chain.Shared.Text.{Text, text_eq_iff, lower}
use energy_chain.Wallet.Display.{Display}
use energy_chain.Wallet.Charts.Trades.{trades_from}
use energy_chain.Wallet.Portfolio.{
  SwapLog, PortfolioChain, TxRecord, lower_or, involves, tx_record, log_txs, all_txs, insert_latest,
  latest_first, recent_txs,
}

-- No transaction is earlier than one behind it.
abbrev pub IsLatestFirst : List TxRecord → Type 0
IsLatestFirst [] = Unit
IsLatestFirst (t ∷ ts) = All (λ u. u.block_number ≤ t.block_number) ts × IsLatestFirst ts

module _ (P : TxRecord → Type 0) where
  insert_latest-All :
      (t : TxRecord) (us : List TxRecord) → P t → All P us → All P (insert_latest t us)
  unfolding insert_latest
  insert_latest-All t [] h k = (h, tt)
  insert_latest-All t (u ∷ us) h k = elim (Bool-cases (leb u.block_number t.block_number)) [
    | inl le ↦ rw le (h, k)
    | inr gt ↦ rw gt (k.0, insert_latest-All t us h k.1)
  ]

  latest_first-All : (ts : List TxRecord) → All P ts → All P (latest_first ts)
  unfolding latest_first
  latest_first-All [] h = tt
  latest_first-All (t ∷ ts) h = insert_latest-All t (latest_first ts) h.0 (latest_first-All ts h.1)

  take-All : (n : ℕ) (ts : List TxRecord) → All P ts → All P (take n ts)
  take-All zero ts h = tt
  take-All (suc n) [] h = tt
  take-All (suc n) (t ∷ ts) h = (h.0, take-All n ts h.1)

All-le :
    (m n : ℕ) (us : List TxRecord)
    → m ≤ n
    → All (λ u. u.block_number ≤ m) us
    → All (λ u. u.block_number ≤ n) us
All-le m n [] h k = tt
All-le m n (u ∷ us) h k = (omega (arith, k.0), All-le m n us h k.1)

insert_latest-IsLatestFirst :
    (t : TxRecord) (us : List TxRecord) → IsLatestFirst us → IsLatestFirst (insert_latest t us)
unfolding insert_latest
insert_latest-IsLatestFirst t [] h = (tt, tt)
insert_latest-IsLatestFirst t (u ∷ us) (low, h) =
    elim (Bool-cases (leb u.block_number t.block_number)) [
      | inl le ↦
          let below : u.block_number ≤ t.block_number = ground arith in
          rw le ((below, All-le u.block_number t.block_number us below low), (low, h))
      | inr gt ↦ rw gt (
        insert_latest-All (λ v. v.block_number ≤ u.block_number) t us (ground arith) low,
        insert_latest-IsLatestFirst t us h,
      )
    ]

latest_first-IsLatestFirst : (ts : List TxRecord) → IsLatestFirst (latest_first ts)
unfolding latest_first
latest_first-IsLatestFirst [] = tt
latest_first-IsLatestFirst (t ∷ ts) =
    insert_latest-IsLatestFirst t (latest_first ts) (latest_first-IsLatestFirst ts)

take-IsLatestFirst : (n : ℕ) (ts : List TxRecord) → IsLatestFirst ts → IsLatestFirst (take n ts)
take-IsLatestFirst zero ts h = tt
take-IsLatestFirst (suc n) [] h = tt
take-IsLatestFirst (suc n) (t ∷ ts) h = (take-All _ n ts h.0, take-IsLatestFirst n ts h.1)

length-take : (n : ℕ) (ts : List TxRecord) → length (take n ts) ≤ n
length-take zero ts = omega arith
length-take (suc n) [] = omega arith
length-take (suc n) (t ∷ ts) = omega (arith, length-take n ts)

module _ (c : PortfolioChain) (show_time : ℕ → Text) (account : Text) where
  -- The record of a swap that a pair of the list emitted in the range and that the account sent or
  -- received: the node gave the pair's logs, and the swap is one of them.
  pub record IsOwn (from to : ℕ) (pairs : List Text) (t : TxRecord) : Type 0 where
    pub pair : Text
    pub listed : Memᴰ pair pairs
    pub logs : List SwapLog
    pub read : c.logs pair from to ≡ some logs
    pub log : SwapLog
    pub emitted : Memᴰ log logs
    pub shown : t ≡ tx_record c show_time log
    pub own : (lower_or log.sender ≡ lower account) ⊎ (lower_or log.to ≡ lower account)

  involves-own :
      (log : SwapLog)
      → involves account log ≡ true
      → (lower_or log.sender ≡ lower account) ⊎ (lower_or log.to ≡ lower account)
  unfolding involves
  involves-own log h = ground (
    arith,
    text_eq_iff (lower_or log.sender) (lower account),
    text_eq_iff (lower_or log.to) (lower account),
  )

  -- Every log of the list has the property.
  log_txs-All :
      (P : TxRecord → Type 0) (logs : List SwapLog)
      → ((log : SwapLog)
          → Memᴰ log logs
          → involves account log ≡ true
          → P (tx_record c show_time log))
      → All P (log_txs c show_time account logs)
  unfolding log_txs
  log_txs-All P [] h = tt
  log_txs-All P (log ∷ logs) h =
      let rest = log_txs-All P logs (λ l m. h l (Memᴰ.tail m)) in
      elim (Bool-cases (involves account log)) [
        | inl own ↦ rw own (h log (Memᴰ.head refl) own, rest)
        | inr other ↦ rw other rest
      ]

  all_txs-All :
      (P : TxRecord → Type 0) (from to : ℕ) (pairs : List Text)
      → ((pair : Text)
          → Memᴰ pair pairs
          → (logs : List SwapLog) → c.logs pair from to ≡ some logs
          → All P (log_txs c show_time account logs))
      → All P (all_txs c show_time account from to pairs)
  unfolding all_txs
  all_txs-All P from to [] h = tt
  all_txs-All P from to (pair ∷ pairs) h =
      let rest = all_txs-All P from to pairs (λ q m. h q (Memᴰ.tail m)) in
      elim (Option-cases (c.logs pair from to)) [
        | inl failed ↦ rw (failed, all_txs) rest
        | inr (logs, e) ↦
            rw (e, all_txs)
              (All-append P (log_txs c show_time account logs) _ (h pair (Memᴰ.head refl) logs e)
                rest)
      ]

  all_txs-IsOwn :
      (from to : ℕ) (pairs : List Text)
      → All (IsOwn from to pairs) (all_txs c show_time account from to pairs)
  all_txs-IsOwn from to pairs = all_txs-All _ from to pairs (λ pair m logs e.
      log_txs-All _ logs (λ log l own. record {
        pair = pair;
        listed = m;
        logs = logs;
        read = e;
        log = log;
        emitted = l;
        shown = refl;
        own = involves-own log own;
      }))

-- The page shows at most 20 swaps, the latest first, and each of them is the record of a swap among
-- the logs that the node gives for a pair of the list and the range up to the latest block, which the
-- account sent or received, however its address is written.
pub recent_txs-IsOwn :
    (d : Display) (show_time : ℕ → Text) (wecy usdt : Text) (c : PortfolioChain) (account : Text)
    (pairs : List Text) (latest : ℕ)
    → let txs = recent_txs d show_time wecy usdt c account pairs latest in
      (length txs ≤ 20)
      × IsLatestFirst txs
      × All (IsOwn c show_time account (trades_from latest) latest pairs) txs
unfolding recent_txs
recent_txs-IsOwn d show_time wecy usdt c account pairs latest =
    let all = all_txs c show_time account (trades_from latest) latest pairs in
    (
      length-take 20 (latest_first all),
      take-IsLatestFirst 20 (latest_first all) (latest_first-IsLatestFirst all),
      take-All _ 20 (latest_first all) (
          latest_first-All _ all
            (all_txs-IsOwn c show_time account (trades_from latest) latest pairs)),
    )
