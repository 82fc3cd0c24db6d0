-- ===== src/Regex.antt =====
-- libs/words/pubinclude/words/regconstraints.hpp: trees of regular expressions and their
-- operations. A `RegWord` holds terminals only and is read through its iterator, so it is the list
-- of the characters that the iterator gives; a thrown `WordException` is `none`.
pub mod Defs
pub mod Lang
pub mod Derive
pub mod Words
pub mod Reverse
pub mod Flatten
pub mod Measures
pub mod Strip
pub mod Derivative
