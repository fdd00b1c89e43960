-- ===== src/Persistence.antt =====
-- useful_blockchain/persistence/store.py: class ChainStore.
pub mod Files
pub mod Store
pub mod Load
pub mod Save
pub mod Layout
pub mod Runs
pub mod Verified
pub mod Plan
pub mod Interrupted
pub mod Atomic
pub mod Saved
pub mod RoundTrip
