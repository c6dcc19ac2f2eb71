-- ===== src/Ecs.antt =====
-- NeuronCore/ECS.h, in two parts: the sparse-set pool of one component type, and the registry of
-- entities; NeuronCore/OwnershipIndex.h is Ownership.
pub mod Pool
pub mod Registry
pub mod Ownership
