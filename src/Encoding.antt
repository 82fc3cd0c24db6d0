-- ===== src/Encoding.antt =====
-- libs/solvers/satencoding/regular: the encoders of regular constraints into formulae.
pub mod Defs
pub mod Meaning
pub mod Rounds
pub mod Round
pub mod Words
pub mod Blank
pub mod Encode
pub mod Spelling
pub mod Promise
pub mod Rows
pub mod Pair
pub mod Stars
pub mod Correct
pub mod Clauses
pub mod Substitutions
pub mod Whole
pub mod Decode
pub mod Represent
pub mod Fixed
pub mod Plain
