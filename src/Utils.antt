-- ===== src/Utils.antt =====
-- web/src/app/utils.js
pub mod Urls
pub mod Auth
pub mod Hash
pub mod Lines
pub mod Shuffle
