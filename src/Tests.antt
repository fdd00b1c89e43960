-- ===== src/Tests.antt =====
-- Concrete inputs: a platform whose functions are simple and run, and the theorems at inputs that
-- meet their hypotheses.
mod Toy
mod Chains
mod Stakes
mod Configured
mod Stored
mod Peers
mod Health
mod Nodes
