-- ===== src/Factory/Decompose.antt =====
-- src/intent_packages/factory/decompose.py: the verb `decompose`, which turns one bump of one
-- dependency into a proposal of a unit of work, and may submit it.
pub mod Proposal
pub mod Possible
pub mod Flow
pub mod Criteria
pub mod Laws
