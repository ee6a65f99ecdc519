-- ===== src/Provider.antt =====
-- internal/domain/provider: what a provider sees of its activity and of what it has collected.
pub mod Period
pub mod Buckets
pub mod Percent
pub mod Collections
pub mod Activity
