-- ===== src/Automaton.antt =====
-- libs/solvers/satencoding/regular/nfa.cpp: nondeterministic automata and their construction from
-- regular expressions.
pub mod Defs
pub mod Reach
pub mod Attach
pub mod Build
pub mod Steps
pub mod Visit
pub mod Parts
pub mod Words
pub mod Chain
pub mod Loop
pub mod Proper
pub mod Pieces
pub mod Thompson
pub mod Accept
pub mod Unseen
pub mod Cover
pub mod Closure
pub mod Onward
pub mod Tracking
pub mod Remove
pub mod Taken
pub mod Skip
pub mod Epsilon
pub mod Empty
