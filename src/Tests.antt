-- ===== src/Tests.antt =====
-- The theorems at concrete runs, and tests of the definitions.
mod Samples
mod Transitions
mod Stores
mod Cleanups
mod Budgets
mod Watchdogs
mod Admissions
mod Uploads
mod Workers
mod Publications
mod Evidence
mod Sources
mod Parses
mod Costs
mod Sessions
mod Answers
