-- ===== src/Media.antt =====
-- The SDK's media settings.
pub mod Codecs
pub mod Merge
