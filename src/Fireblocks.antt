-- ===== src/Fireblocks.antt =====
-- app/services/custody/fireblocks: the ids under which Fireblocks lists its assets.
pub mod Assets
pub mod Natives
pub mod Consistency
pub mod Search
pub mod Resolver
pub mod Paging
