-- ===== src/Compact/Patched.antt =====
-- What a patch of a compact schema (`generate_patch` of pinapod-derive/src/compact.rs) does.
pub mod Inputs
pub mod Length
pub mod Inlines
pub mod Behind
pub mod Swap
pub mod Update
pub mod Initialize
pub mod Zeros
pub mod Filled
