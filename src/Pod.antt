-- ===== src/Pod.antt =====
-- The stored types of pinapod/src/pod.
pub mod Prefix
pub mod Vec
pub mod Text
pub mod Flag
pub mod Maybe
pub mod Int
pub mod Elems
