-- ===== src/Snapshot.antt =====
-- The replication of entity snapshots (NeuronCore/Quantization.h, Replication.h, SnapshotDelta.h,
-- SnapshotPacketizer.h and SnapshotStream.h).
pub mod Quantize
pub mod World
pub mod Delta
pub mod Packetizer
pub mod Stream
mod Tests
