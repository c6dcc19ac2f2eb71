-- ===== src/Persist.antt =====
-- NeuronServer: the durable rows, the in-memory store (PersistenceStore.h), and the queues of the
-- service that writes them (PersistenceService.cpp).
pub mod Rows
pub mod Store
pub mod Names
pub mod Service
pub mod WriteBehind
mod Tests
