-- ===== src/Word.antt =====
-- libs/words/pubinclude/words/words.hpp: entries, sequences and words.
pub mod Defs
pub mod Value
pub mod Substitute
pub mod Sequence
pub mod Factor
pub mod Counts
