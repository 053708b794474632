-- ===== src/DataModel.antt =====
-- matter/src/data_model: the objects of a node and the clusters of every device.
pub mod FailSafe
pub mod Attribute
pub mod Cluster
pub mod Endpoint
pub mod Node
pub mod Reading
pub mod Writing
pub mod Commands
pub mod GeneralCommissioning
mod Tests
mod NodeTests
mod CommandTests
