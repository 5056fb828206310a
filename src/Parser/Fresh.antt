-- ===== src/Parser/Fresh.antt =====
-- compiler/lib/Parser/ParseTreeVisitor.h: the identities of the nodes that the visitor creates.
pub mod Types
pub mod Steps
pub mod Exprs
pub mod Programs
