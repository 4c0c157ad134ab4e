-- ===== src/Loaders.antt =====
-- The loaders of firmware images: src/loaders of the repository.
pub mod Uf2
mod Tests
