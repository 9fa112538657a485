-- ===== src/Dht.antt =====
-- src/dht.c, the distributed hash table: private retrieval by distributed point functions, the store
-- of a relay, and which relays are responsible for a descriptor.
pub mod Dpf
pub mod Pir
pub mod Store
pub mod Ring
mod Tests
