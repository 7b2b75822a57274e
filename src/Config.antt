-- ===== src/Config.antt =====
-- python/rlox/config.py: the configuration classes.
-- A class is a `Schema`: its fields with their defaults, its aliases and the checks of its
-- `__post_init__`. An instance is the dict of its fields, as `asdict` gives it.
pub mod Values
pub mod Mixin
pub mod Schemas
pub mod Reading
pub mod Roundtrip
pub mod Merging
pub mod Classes
mod Tests
