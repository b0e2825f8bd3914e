-- ===== src/Shortener.antt =====
-- code/hld/base62.py: codes, the permutation of counters, and the conditional writes of short links.
pub mod Codec
pub mod RoundTrip
pub mod Feistel
pub mod Permute
pub mod Links
pub mod Claims
pub mod Counters
pub mod Again
