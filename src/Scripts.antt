-- ===== src/Scripts.antt =====
-- The scripts of contracts/scripts that deploy the exchange, fund it and try its contracts. A script
-- is an action over the transactions that it has sent so far, the last one first, and it returns or
-- throws. ethers and the chain are the parameter `Node`, which answers from these transactions.
-- Logging, the waiting for a receipt and the limits on gas are left out.
pub mod Steps
pub mod Deploy
pub mod Swap
pub mod Tour
pub mod Allowance
