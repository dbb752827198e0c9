-- ===== src/Utils.antt =====
-- The containers of core/shared/utils.
pub mod Vector
pub mod Timer
pub mod HashMap
pub mod Queue
