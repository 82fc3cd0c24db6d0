-- ===== src/Regex/Derivative.antt =====
-- `derivative` of libs/words/pubinclude/words/regconstraints.hpp by one character against the language.
pub mod Parts
pub mod Sound
pub mod Complete
pub mod Shape
