-- ===== src/Topology.antt =====
-- plans/topology: the test plan, its node over libp2p, and what the node is made of.
pub mod Errors
pub mod TopicManager
pub mod Notiffee
pub mod Clusters
pub mod Assignment
pub mod Subnets
pub mod Pubsub
pub mod Listen
pub mod Tracer
pub mod Listeners
pub mod Sending
pub mod Node
pub mod Run
pub mod Instances
pub mod Handlers
