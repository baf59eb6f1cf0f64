-- ===== src/Nesting.antt =====
-- class NestingState of cpplint.py: the stack of the blocks that a line stands in.
pub mod Stack
pub mod Templates
pub mod Declarations
pub mod Tokens
pub mod Update
