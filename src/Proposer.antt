-- ===== src/Proposer.antt =====
-- The forward proposer (proposer/forward_proposer.py): it reads a decision frame and returns
-- advisory rows. One child module for each stage.
pub mod Frame
pub mod Offer
pub mod Held
pub mod Inlets
pub mod Measure
pub mod Rows
pub mod Points
pub mod Translate
pub mod Batch
pub mod Propose
