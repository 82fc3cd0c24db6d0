-- ===== src/Linear.antt =====
-- libs/words: linear constraints over the lengths of variables, and the solver's change of them under
-- a substitution, in libs/solvers/levis.
pub mod Defs
pub mod Builder
pub mod Modify
