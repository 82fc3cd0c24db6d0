-- ===== src/Lib.antt =====
-- Woorpje, a solver for word equations with regular and linear constraints, as a verification library.
--
-- Parts and files. A word equation is a pair of words over variables and terminals; simplifiers
-- reduce equations, regular constraints are stripped by derivatives, and what is left is encoded
-- into propositional formulae and clauses for the SAT solver.
-- - libs/words/pubinclude/words/words.hpp: `Word.Defs` has entries, words and the loops over them,
--   `Word.Substitute` `substitudeVariable`, `Word.Sequence` the operators of `Sequence`,
--   `Word.Factor` `isFactorOf`; `Word.Value` says what a word stands for under an assignment.
-- - libs/words/pubinclude/words/regconstraints.hpp: `Regex.Defs` has the trees with `isEmpty`,
--   `acceptsEpsilon`, `any` and `reverse`, `Regex.Derive` has `derivative`, `Regex.Flatten` `flatten`,
--   `Regex.Measures` the numbers for the heuristics, and `Regex.Strip` `stripPrefix` and `stripSuffix`
--   of libs/words/regconstraint.cpp; `Regex.Lang` says which words are in the language.
-- - libs/solvers/satencoding/regular/proplog.cpp: `Propositional.Formula` has `PLFormula` and
--   `makeBinary`, `Propositional.Measures` the formula's other questions, `Propositional.Tseytin.Defs`
--   has `maincnf`, `defstep` and `tseytin_cnf`.
-- - libs/solvers/pubinclude/solvers/simplifiers.hpp: `Simplify.Defs` has `PrefixReducer` and
--   `SuffixReducer`, over the interface `Simplify.Side` of the end that they work at,
--   `Simplify.System` `PreSuffixReducer` and `RunAllEq`, `Simplify.Constants`
--   `ConstSequenceFolding` and `ConstSequenceMismatch`, and `Simplify.Reasoning`
--   `SubstitutionReasoningNew` over the simplifier that it is given for single equations.
-- - libs/words/linconstraint.cpp: `Linear.Defs` has the builder of linear constraints, and
--   `modifyLinearConstraints` of libs/solvers/levis/solver.cpp.
-- - libs/solvers/levis/rules.hpp: `Levis.Rules` has the rules and `Levis.Sequencer` the order in which
--   they are tried; `Levis.Satisfiable` says what a solution of a system is.
-- - libs/solvers/levis/passed.hpp and passed.cpp: `Levis.Waiting` has the waiting list, in both search
--   orders, and `Levis.Runs` the states that its operations lead to.
-- - libs/solvers/satencoding/regular/nfa.cpp: `Automaton.Defs` has the class `NFA` with its states and
--   transitions, `Automaton.Build` `regexToNfa`, `Automaton.Accept` `epsilonClosure` and `accept`, and
--   `Automaton.Remove` `removeEpsilonTransitions`; `Automaton.Reach` says what a run is.
-- - libs/solvers/satencoding/regular/wordencoder.cpp, encoding.h and util.cpp: `Encoding.Defs` has the
--   filled patterns and `encodeWord`, `Encoding.Encode` `doEncode` with `encodeUnion`, `encodeConcat` and
--   `encodeStar`, and `encode` that hands the formula to `tseytin_cnf`. They ask the automata about
--   patterns of constants, and the lengths of an expression whether to go on. `Encoding.Meaning` says
--   what a valuation of the variables makes of a pattern; `Encoding.Substitutions`,
--   `Encoding.Decode` and `Encoding.Represent` go between substitutions and valuations.
--   `Encoding.Correct` says what `doEncode` asks the lengths about, and `Encoding.Plain` has a class of
--   expressions for it.
-- - libs/solvers/satencoding/regular/regencoding.h and rAbs.cpp: `Lengths.Defs` has the class
--   `ArithmeticProgressions`, and `Lengths.From` `concat` and `fromExpression`.
--
-- `Common` has the names that all parts share, and `Members` membership in lists.
--
-- Choices. Pointers to entries are compared by what the context makes them unique for: a variable's
-- index, a terminal's character, a sequence's characters; a collision of sequence hashes, at which
-- the source throws, is left out. A `RegWord` is the list of its characters. The two reducers take
-- one unit of fuel for each entry of the equation and one more, and each round uses up an entry.
-- The epsilon closure takes one unit more than the automaton has states, since each call but the last
-- ones adds a state to those that are ignored. The elimination of variables takes one for each equation, since it starts
-- again with fewer. `encodeWord` takes one unit for each position and one more, since each call leaves out
-- a position, and a loop of `fromExpression` one for each number up to its limit and two more, since the
-- step that it counts with is not 0 where it goes on.
-- `none` stands for a fault of the source: an index or an iterator past the end, a thrown exception
-- or an exit, as each file says. Literals and counters are integers without bound. The SAT solver's
-- `newVar` is the parameter `VarSource` with what its documentation says of it. The handler of the
-- sequencer, the hash of a system, gcd and lcm and the simplifier inside
-- `SubstitutionReasoningNew` are parameters too. The maps of an encoder, which its caller fills for each
-- position and character, are functions; the lengths are a parameter of `Encoding.Encode`, which
-- `Encoding.Whole` fills.
--
-- Not modelled: parsing, printing, the other SAT and SMT encodings, among them that of regular
-- constraints by automata and its lengths for each state, the caches, `reduceToReachableState` and the tables
-- of reachability and lengths that `NFA` keeps beside its transitions, with the assertions on them,
-- the loop of `Solve`, its handler and its graph, and the vendored SAT solver.
pub mod Automaton
pub mod Common
pub mod Encoding
pub mod Lengths
pub mod Levis
pub mod Linear
pub mod Members
pub mod Propositional
pub mod Regex
pub mod Simplify
pub mod Tests
pub mod Word
