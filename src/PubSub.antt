-- ===== src/PubSub.antt =====
-- software_bus/pubsub.py: the wire format, and the parts of the node.
pub mod Codec
pub mod Subscriptions
pub mod Query
pub mod State
pub mod Node
pub mod Check
pub mod Client
