-- ===== src/Examples.antt =====
-- The theorems at concrete inputs.
mod Decisions
mod Submissions
mod Books
mod Running
mod Feeds
mod Simulated
mod Resolving
mod Configured
mod Operated
mod Barred
mod Progressing
