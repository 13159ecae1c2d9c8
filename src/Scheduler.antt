-- ===== src/Scheduler.antt =====
-- exordos_core/compute/scheduler: the placement of nodes, machines and volumes.
pub mod Volumes
pub mod Filters
pub mod Nodes
