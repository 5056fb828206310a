-- ===== src/Passes.antt =====
-- The analysis passes of compiler/lib/Sema, as overrides of the recursive visitor.
pub mod Growth
pub mod DeclareTypes
pub mod ResolveTypes
pub mod Materialize
pub mod Overloads
pub mod TypeCheck
