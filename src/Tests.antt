-- ===== src/Tests.antt =====
-- The theorems at concrete runs of the code.
mod StoreRuns
mod LedgerRuns
mod PaymentRuns
mod EditRuns
mod ClaimRuns
mod ClockRuns
mod StockRuns
mod IdRuns
mod CommitRuns
mod BookRuns
mod MoneyRuns
