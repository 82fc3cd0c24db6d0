-- ===== src/Simplify.antt =====
-- libs/solvers/pubinclude/solvers/simplifiers.hpp: simplifiers of word equations.
pub mod Defs
pub mod Side
pub mod Reduce
pub mod Ends
pub mod Constants
pub mod System
pub mod Reasoning
pub mod Selected
pub mod Eliminate
