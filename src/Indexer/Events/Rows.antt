-- ===== src/Indexer/Events/Rows.antt =====
-- The rows that a range of blocks writes for one pair, when the node and the database answer.
use energy_chain.Shared.{
  ℕ, ◌≡◌, refl, ap, sym, ◌∙◌, true, Option, none, some, List, [], ◌∷◌, ◌++◌, last?, append_assoc,
  append-nil, Option-cases, inl, inr,
}
use energy_chain.Shared.Text.{Text}
use energy_chain.Shared.Number.{to_string}
use energy_chain.Indexer.Data.{
  Log, SwapArgs, LiquidityArgs, SyncArgs, Env, World, Request, Write, write, History, create_swap,
  create_mint, create_burn, update_pair, query_swaps, query_mints, query_burns, query_syncs,
  get_block,
}
use energy_chain.Indexer.Action.{
  call-some, bind_ok, Action, Result, ok, threw, pure, call, send, asked, for_each, ◌>>=◌, ◌>>◌,
}
use energy_chain.Indexer.Events.{
  block_time, swap_row, liquidity_row, index_log, update_reserves, index_swaps, index_mints,
  index_burns, index_pair_events,
}

-- The writes that the database took, in their order.
unfoldable pub taken : History → List Write
taken [] = []
taken (write c true ∷ h) = taken h ++ c ∷ []
taken (_ ∷ h) = taken h

-- What the node has, once its blocks are final: the time of each block, and the logs of a pair in
-- each range.
pub record Ledger : Type 0 where
  pub clock : ℕ → Option ℕ
  pub swaps : Text → ℕ → ℕ → List (Log SwapArgs)
  pub mints : Text → ℕ → ℕ → List (Log LiquidityArgs)
  pub burns : Text → ℕ → ℕ → List (Log LiquidityArgs)
  pub syncs : Text → ℕ → ℕ → List (Log SyncArgs)

-- The node answers from the ledger, at any time, and the database takes every write.
pub record IsSteady (env : Env) (l : Ledger) : Type 0 where
  pub blocks : (h : History) (n : ℕ) → env.block_reply h n ≡ some (l.clock n)
  pub swap_logs :
      (h : History) (a : Text) (from to : ℕ)
      → env.swaps_reply h a from to ≡ some (l.swaps a from to)
  pub mint_logs :
      (h : History) (a : Text) (from to : ℕ)
      → env.mints_reply h a from to ≡ some (l.mints a from to)
  pub burn_logs :
      (h : History) (a : Text) (from to : ℕ)
      → env.burns_reply h a from to ≡ some (l.burns a from to)
  pub sync_logs :
      (h : History) (a : Text) (from to : ℕ)
      → env.syncs_reply h a from to ≡ some (l.syncs a from to)
  pub writes : (h : History) (c : Write) → env.write_reply h c ≡ true

-- The row for a log, if it parses.
abbrev pub row : {A : Type 0} → Ledger → (Log A → A → ℕ → Write) → Log A → List Write
row l make log = elim log.parsed [
  | none ↦ []
  | some args ↦ make log args (block_time (l.clock log.block_number)) ∷ []
]

-- The rows for a list of logs, in the order of the logs.
abbrev pub rows : {A : Type 0} → Ledger → (Log A → A → ℕ → Write) → List (Log A) → List Write
rows l make [] = []
rows l make (log ∷ logs) = row l make log ++ rows l make logs

-- The reserves of the last `Sync`, if there is one and it parses.
abbrev pub reserves : Text → List (Log SyncArgs) → List Write
reserves a logs = elim (last? logs) [
  | none ↦ []
  | some log ↦ elim log.parsed [
    | none ↦ []
    | some args ↦ update_pair a (to_string args.reserve0) (to_string args.reserve1) ∷ []
  ]
]

-- The action returns, and the database has taken these writes more.
pub record Writes (m : Action (Unit {0})) (cs : List Write) : Type 0 where
  pub at : (w : World) → ((m w).0 ≡ ok tt) × (taken (m w).1.history ≡ taken w.history ++ cs)

then_result :
    (w : World) (f : Unit {0} → Action (Unit {0})) (cs ds : List Write)
    (p : Result (Unit {0}) × World)
    → (p.0 ≡ ok tt) × (taken p.1.history ≡ taken w.history ++ cs)
    → Writes (f tt) ds
    → let q = elim p.0 as (λ _. Result (Unit {0}) × World) [
      | ok a ↦ f a p.1
      | threw ↦ (threw, p.1)
    ] in
      (q.0 ≡ ok tt) × (taken q.1.history ≡ taken w.history ++ (cs ++ ds))
then_result w f cs ds (ok tt, w') (e, h) k = ((k.at w').0, (k.at w').1 ∙ rw (h, append_assoc))
then_result w f cs ds (threw, w') (e, h) k = cc

Writes-then :
    {m k : Action (Unit {0})} {cs ds : List Write}
    → Writes m cs
    → Writes k ds
    → Writes (m >> k) (cs ++ ds)
unfolding ◌>>=◌
Writes-then {m} {k} {cs} {ds} p q = record {
  at = λ w. then_result w (λ _. k) cs ds (m w) (p.at w) q;
}

Writes-pure : Writes (pure tt) []
unfolding pure
Writes-pure = record { at = λ w. (refl, sym (append-nil _)) }

-- A call that writes nothing and is answered by `a`.
Writes-call :
    {A : Type 0} (r : Request) (reply : History → Option A) (a : A) (f : A → Action (Unit {0}))
    {cs : List Write}
    → ((h : History) → taken (r ∷ h) ≡ taken h)
    → ((h : History) → reply h ≡ some a)
    → Writes (f a) cs
    → Writes (call r reply >>= f) cs
Writes-call r reply a f {cs} quiet answers k = record {
  at = λ w.
      rw (bind_ok (call r reply) f a w (asked r w) (call-some r reply a w (answers w.history)))
        ((k.at (asked r w)).0, (k.at (asked r w)).1 ∙ ap (λ t. t ++ cs) (quiet w.history));
}

module _ {env : Env} {l : Ledger} (steady : IsSteady env l) where
  send-Writes : (c : Write) → Writes (send env c) (c ∷ [])
  unfolding send taken
  send-Writes c = record { at = λ w. rw (steady.writes w.history c, send) (refl, refl) }

  index_log-Writes :
      {A : Type 0} (make : Log A → A → ℕ → Write) (log : Log A)
      → Writes (index_log env make log) (row l make log)
  unfolding index_log taken
  index_log-Writes make log = elim (Option-cases log.parsed) [
    | inl skipped ↦ rw (skipped, index_log, row) Writes-pure
    | inr (args, e) ↦
        rw (e, index_log, row)
          (Writes-call (get_block log.block_number) (λ h. env.block_reply h log.block_number)
            (l.clock log.block_number) _ (λ h. refl) (λ h. steady.blocks h log.block_number)
            (send-Writes (make log args (block_time (l.clock log.block_number)))))
  ]

  for_each-Writes :
      {A : Type 0} (make : Log A → A → ℕ → Write) (logs : List (Log A))
      → Writes (for_each (index_log env make) logs) (rows l make logs)
  unfolding for_each
  for_each-Writes make [] = Writes-pure
  for_each-Writes make (log ∷ logs) =
      Writes-then (index_log-Writes make log) (for_each-Writes make logs)

  update_reserves-Writes :
      (a : Text) (logs : List (Log SyncArgs))
      → Writes (update_reserves env a logs) (reserves a logs)
  unfolding update_reserves
  update_reserves-Writes a logs = elim (Option-cases (last? logs)) [
    | inl empty ↦ rw (empty, update_reserves, reserves) Writes-pure
    | inr (log, e) ↦ elim (Option-cases log.parsed) [
      | inl skipped ↦ rw (e, update_reserves, reserves) (rw (skipped) Writes-pure)
      | inr (args, p) ↦ rw (e, update_reserves, reserves) (rw (p) (send-Writes _))
    ]
  ]

-- What one call of `indexPairEvents` is to write: a row for each swap, then for each mint, then for
-- each burn, and the last reserves.
abbrev pub pair_rows : Ledger → Text → ℕ → ℕ → List Write
pair_rows l a from to =
    rows l (λ log args time. create_swap (swap_row a log args time)) (l.swaps a from to)
    ++ (rows l (λ log args time. create_mint (liquidity_row a log args time)) (l.mints a from to)
        ++ (rows l (λ log args time. create_burn (liquidity_row a log args time))
              (l.burns a from to)
            ++ reserves a (l.syncs a from to)))

-- With a node and a database that answer, `indexPairEvents` returns, and it has written exactly one
-- row for each swap, mint and burn of the range that parses, in this order, with the time of its
-- block, and then the reserves of the last sync.
pub index_pair_events-Writes :
    (env : Env) (l : Ledger) (a : Text) (from to : ℕ)
    → IsSteady env l
    → Writes (index_pair_events env a from to) (pair_rows l a from to)
unfolding index_pair_events index_swaps index_mints index_burns taken
index_pair_events-Writes env l a from to steady =
    Writes-call (query_swaps a from to) _ (l.swaps a from to) _ (λ h. refl)
      (λ h. steady.swap_logs h a from to)
      (Writes-call (query_mints a from to) _ (l.mints a from to) _ (λ h. refl)
        (λ h. steady.mint_logs h a from to)
        (Writes-call (query_burns a from to) _ (l.burns a from to) _ (λ h. refl)
          (λ h. steady.burn_logs h a from to)
          (Writes-call (query_syncs a from to) _ (l.syncs a from to) _ (λ h. refl)
            (λ h. steady.sync_logs h a from to)
            (Writes-then (for_each-Writes steady _ (l.swaps a from to)) (
              Writes-then (for_each-Writes steady _ (l.mints a from to)) (
                Writes-then (for_each-Writes steady _ (l.burns a from to))
                  (update_reserves-Writes steady a (l.syncs a from to))))))))

-- Under the same conditions a second call for the same range writes every row a second time.
pub index_pair_events-twice :
    (env : Env) (l : Ledger) (a : Text) (from to : ℕ)
    → IsSteady env l
    → Writes
        (index_pair_events env a from to >> index_pair_events env a from to)
        (pair_rows l a from to ++ pair_rows l a from to)
index_pair_events-twice env l a from to steady =
    Writes-then (index_pair_events-Writes env l a from to steady)
      (index_pair_events-Writes env l a from to steady)
