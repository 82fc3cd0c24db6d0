-- ===== src/Propositional.antt =====
-- libs/solvers/satencoding/regular/proplog.cpp: propositional formulae, their binary form and the
-- Tseytin transformation into clauses.
pub mod Formula
pub mod Literal
pub mod Measures
pub mod Binary
pub mod Plural
pub mod Tseytin
