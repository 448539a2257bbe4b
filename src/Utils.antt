-- ===== src/Utils.antt =====
-- edpsrun/EdpsUtils/: the utilities that edpsrun's programs use.
pub mod Timer
