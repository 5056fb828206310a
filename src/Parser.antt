-- ===== src/Parser.antt =====
-- compiler/lib/Parser: the syntax tree that is built from a parse tree.
pub mod Tree
pub mod Actions
pub mod Types
pub mod Build
pub mod Program
pub mod Complete
pub mod Answers
pub mod Fresh
pub mod Unparse
pub mod Faults
pub mod Listener
pub mod Session
