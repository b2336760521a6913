-- ===== src/Tests.antt =====
-- Runs of the models at fixed inputs, and the theorems at inputs that meet their hypotheses.
mod Attesting
mod Identities
mod Submissions
mod Node
mod Indexing
mod Prices
mod Routes
mod Pages
mod Charts
mod Forms
mod Gestures
mod Transfers
mod Bot
mod Polling
mod Rounds
mod Listings
mod Scripts
mod Clicks
