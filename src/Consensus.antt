-- ===== src/Consensus.antt =====
-- useful_blockchain/consensus: the rules by which blocks are linked, produced, accepted and chains
-- chosen. `Link` is base.py; `Stake`, `Pos` and `PosChain` are pos.py; `Pow` is pow.py.
pub mod Link
pub mod Choice
pub mod Stake
pub mod Pos
pub mod Propose
pub mod PosChain
pub mod Difficulty
pub mod Pow
pub mod Mining
pub mod Protocol
