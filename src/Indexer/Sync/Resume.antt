-- ===== src/Indexer/Sync/Resume.antt =====
-- Where the indexer goes on after a restart.
use energy_chain.Shared.Text.{Text}
