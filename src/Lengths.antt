-- ===== src/Lengths.antt =====
-- libs/solvers/satencoding/regular: the lengths that the words of a regular expression can have.
pub mod Defs
pub mod From
pub mod Contains
pub mod Total
pub mod Stops
pub mod Plain
