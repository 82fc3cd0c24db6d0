-- ===== src/Levis.antt =====
-- libs/solvers/levis: the rules of rules.hpp and the sequencer that tries them.
pub mod Rules
pub mod Sequencer
pub mod Waiting
pub mod Insert
pub mod Runs
pub mod Satisfiable
pub mod Front
pub mod Endings
pub mod Back
pub mod Single
