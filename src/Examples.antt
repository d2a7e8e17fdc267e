-- ===== src/Examples.antt =====
-- The theorems at concrete inputs, and tests of the definitions.
pub mod Externals
mod Partitions
pub mod Tables
mod Index
mod Codecs
mod Trees
mod Collection
mod Dump
mod Audits
pub mod Similar
mod Search
mod Requests
