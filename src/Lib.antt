-- ===== src/Lib.antt =====
-- The trading part of Energy Chain: the indexer that follows the exchange's contracts, the service
-- that makes candles of its rows, the HTTP routes over them, and the pages that send swaps and
-- liquidity and show charts; the bot that trades for a test; the two places that keep records of
-- energy data, a contract and a module of the chain; and the chain's identities.
--
-- The program's parts, and where they are modelled:
--
-- dex-indexer/src/indexer/EventIndexer.ts, class `EventIndexer`: Indexer and its children.
--   Data has the rows of dex-indexer/prisma/schema.prisma and the fields of the class (`World`).
--   Action is an async method: a function of the world that returns or throws, and leaves behind
--   what it asked and wrote before. Everything outside, the node through ethers and the database
--   through prisma, is the parameter `Env`, which answers from all the calls made so far, so that
--   a call can fail once and succeed the next time. Pairs has `loadExistingPairs`, `ensureToken`
--   and `handlePairCreated`; Events has `indexPairEvents` and `processBlockRange`; Sync has
--   `syncHistorical`; Poll has `pollNewBlocks` and `start`.
-- dex-indexer/src/services/PriceService.ts, class `PriceService`: Price. Float names what is used
--   of JavaScript numbers, Candle has the prices and candles, Buckets has `generateOHLCV`. The
--   service reads the rows that Indexer writes, and Price/Candle/Zero and
--   Price/Buckets/Flat join the two.
-- dex-indexer/src/index.ts: Price/Rounds, the timer that calls the service for every pair, on the
--   tables that it reads and writes.
-- dex-indexer/src/api/routes.ts: Api, the queries of the routes. Api/Users joins them with the rows
--   of the indexer.
-- dex-frontend/src: Wallet. Settings is stores/swapSettings.ts, Swap is
--   components/swap/SwapCard.tsx, Pool is pages/PoolPage.tsx, Charts is pages/ChartsPage.tsx,
--   Transfer is pages/TransferPage.tsx, and Units is config/tokens.ts with what the pages use of
--   viem. Farm, Tokens and Portfolio are pages/FarmPage.tsx, pages/TokensPage.tsx and
--   pages/PortfolioPage.tsx, and Display is what they use to print numbers. Selector is
--   components/common/TokenSelector.tsx and a field of components/swap/SwapSettings.tsx, and
--   Format is lib/utils.ts. Markup has what a component renders: its texts, buttons and fields in
--   the order of the document, with the handlers that they call, and what a gesture of the user on
--   one of them causes. The modules named View have the renderings of the swap card with its
--   selector and its settings, and of the pages. App is App.tsx with components/common/Navbar.tsx, and
--   Tokens/Config has the tokens of config/tokens.ts and the pages as they are opened.
-- contracts/contracts/EnergyDataAttestation.sol: Attestation, the contract that keeps the hashes of
--   energy data, with its transactions and queries.
-- chain/x/energy and chain/x/identity: Chain/Energy and Chain/Identity, the modules of the chain
--   that store records of energy data and the identities of participants with their roles.
--   Chain/Kv is the store of a module with its iterators, over the keys of Chain/Keys. Of Energy,
--   Merkle has the root of a batch (msg_server.go), Queries, Listed and ByCategory have the index
--   of categories, Records and History what the messages do to the stored records (keeper.go), and
--   Genesis what is exported and imported. Of Identity, Queries has the queries and the genesis,
--   Index has the index of roles, Steps what an accepted message sets, Roles what any messages keep, and
--   Standing who can change an identity.
-- contracts/scripts: deploy.ts, deploy_dex.ts, fund_dev0.ts, add_liquidity.ts, test_swap.ts and
--   test_all_dex.ts: Scripts. Steps has what a script can do and how it throws and catches, Deploy,
--   Swap and Tour have the scripts, and Allowance follows the allowances of the router through their
--   transactions.
-- contracts/scripts/simulate_trades.ts: Simulation, the phases of the trading bot, what it draws for
--   a trade, its counters, and its calls, which are scripts too.
-- Shared has the texts, the printing and parsing of numbers, integers, and the library's names.
-- Tests has runs at fixed inputs.
--
-- Bounds and fuel: the loop over batches gets `current + 2` rounds, and every round moves its start
-- by the batch size, so the last of them is past the current block; with less the loop would throw.
-- The loop of the charts over batches of blocks gets a round for each block, and reads twenty in each.
-- The root of a batch is computed on as many rounds as there are leaves, since a level has fewer hashes
-- than the one below; without leaves, where the source would recur for ever, it is asked for nowhere.
-- A number is printed on as many rounds as the number itself and one more, and it has no more digits
-- than that. Numbers are exact: those above 2 ^ 53 are left out. Blocks are natural numbers: where the database has a
-- number below -1 as the last block, the synchronisation stops with an exception.
--
-- The calls that the source makes together (`Promise.all`) are made one after another, in their
-- order. The methods of the indexer run one tick behind the other; Indexer/Poll/Overlap is a timer
-- whose ticks overlap, with a range in flight as one step that ends or fails, and Indexer/Poll/Refine
-- relates the two. The conversions of ethers and viem, floating point, what encoding/json
-- gives back of a text of the energy module, the contracts of the exchange, the node and the database are
-- parameters. The texts of the identity module are UTF-8.
--
-- Not modelled: logging, styles and the set-up of the server; the contracts of the exchange, which are
-- copies of another project; the modules of the chain for the data of oracles and for audits, and the set-up of
-- its node; and ping-explorer, a copy of another project.
pub mod Api
pub mod Attestation
pub mod Chain
pub mod Indexer
pub mod Price
pub mod Scripts
pub mod Shared
pub mod Simulation
pub mod Wallet
mod Tests
