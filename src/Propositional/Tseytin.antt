-- ===== src/Propositional/Tseytin.antt =====
-- `tseytin_cnf` of libs/solvers/satencoding/regular/proplog.cpp.
pub mod Defs
pub mod Definitions
pub mod Run
pub mod Correct
