-- ===== src/Tests.antt =====
-- Tests of the definitions on concrete inputs, and each property at an input where its conditions hold.
mod Regex
mod Propositional
mod Word
mod Simplify
mod Levis
mod Linear
mod Automaton
mod Lengths
mod Encoding
