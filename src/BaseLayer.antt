-- ===== src/BaseLayer.antt =====
-- software_bus/base_layer.py: the framing of a connection, and the node.
pub mod Framing
pub mod Node
pub mod Client
