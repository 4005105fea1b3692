-- ===== src/Lib.antt =====
-- Riss is a SAT solver with the preprocessor Coprocessor. This library models the trail, propagation and
-- final conflicts of its search, its proof checker, the clause operations below the solver and the preprocessor, the renaming of variables, the undo stack
-- that extends models, resolution, and the containers they use.
--
-- How the parts interact: a formula is a list of clauses over literals (Lit). The preprocessor
-- eliminates clauses by tests on pairs of clauses (Clause, Resolution, Undo/Blocked), puts them on the
-- undo stack by their original names (Undo, which calls Compression), and renames the variables that
-- are left (Compression). A model that the solver finds is extended by the stack (Undo). The proof that
-- solver and preprocessor write is checked by the online proof checker (Checker), which keeps clauses
-- in watch lists and occurrence lists, marks literals (MarkArray), and searches lists (Alg).
--
-- Files and code, by paths from the repository's root:
--   Lit: riss/core/SolverTypes.h, Var, Lit, mkLit and the operators of literals; a literal is its code
--     `x`, and the special values are constructors of LitCode.
--   Lifted, Lifted/Byte: class lbool of the same file, as three values and as its byte.
--   MarkArray: class MarkArray, with its step counter.
--   Clause, Clause/Subsume, Clause/Sorting, Clause/Order: class Clause, its subsumption tests, sort and
--     operator <. The extra word is a function from bit numbers to bits.
--   Watch: struct Watcher as a 32-bit word.
--   Occurrences: class OccLists of the same file. Region: riss/mtl/Alloc.h, the sizes of
--     RegionAllocator.
--   Alg: riss/mtl/Alg.h. Queue: riss/mtl/Queue.h. BoundedQueue: riss/core/BoundedQueue.h. Heap:
--     riss/mtl/Heap.h.
--   Compression: riss/utils/Compression.h and Compression.cc, without the map file.
--   Undo: coprocessor/CoprocessorTypes.h, addToExtension and extendModel. Undo/Blocked:
--     coprocessor/techniques/BCE.cc, tautologicResolvent.
--   Resolution: coprocessor/techniques/BVE.h, resolve and tryResolve.
--   Checker: proofcheck/OnlineProofChecker.h. Checker is the state; Checker/Propagate is propagate;
--     Checker/Operations is newVar, attachClause, cancelUntil, addParsedclause and addClause with its
--     DRUP and DRAT checks; Checker/Removal is hasClause, removeClause and detachClause. The modules
--     beside them hold the proofs, Checker/Session the runs of several operations.
--   Search: riss/core/Solver.h and Solver.cc. Search is the state with the trail, decision levels,
--     uncheckedEnqueue and cancelUntil; Search/Propagate is propagate; Search/Final is analyzeFinal;
--     Search/Analyze is the loop of analyze, up to the clause before its minimisation, and
--     Search/Learning is conflictAnalysis with the backtrack level and handleLearntClause. The
--     vectors trail and trail_lim are kept newest element first. Search/Justified states the invariant
--     of the search; Search/Propagate/Projection relates its propagation to the checker's.
--   Semantics: what clauses and formulas mean; it models no code.
--
-- State is passed explicitly: an operation takes the record of its class and returns the new one. A
-- vec is a list where its order matters only as a sequence, and a function with its size where it is
-- written at indices. Clause memory is a function from offsets. Assertions are not evaluated, as with
-- NDEBUG; what they demand is a hypothesis where it matters, such as that a clause has no literal twice
-- or that its variables are known. Outside of that the functions say nothing of the source.
-- 32-bit fields whose values stay below the number of literals are natural numbers; the sum of the
-- bounded queue and the word of a watcher keep their wrap-around.
--
-- The loop of OnlineProofChecker::propagate has fuel: the number of variables, plus the length of the
-- trail, plus one. Every round takes one literal off the queue, and a literal is enqueued only if its
-- variable has no value, so this is enough; the loop of Solver::propagate has the same fuel. Heap's
-- percolateUp has the index as fuel and percolateDown the size, since the index falls to its parent
-- or grows to a child.
--
-- Not modelled: the rest of the CDCL search (riss/core/Solver.cc: the minimisation of learned clauses,
-- the clause of decisions that may replace a long one, analyzeNewLearnedClause,
-- decisions, restarts, extended resolution, the sharing of clauses, LBD and counters in propagate, and
-- OTFSS, activities and LBD in analyze), the other techniques of Coprocessor, the portfolio, raw
-- memory, options, and text input and output. Overloads that copy a clause from another container are the
-- same operation here; printing and the switched-off fullCheck are left out.
-- The loop of RegionAllocator::capacity has fuel, of which more than the requested capacity is enough,
-- since each round adds two words or more.
mod Base
pub mod Lit
pub mod Lifted
pub mod Semantics
pub mod MarkArray
pub mod Alg
pub mod Clause
pub mod Watch
pub mod Compression
pub mod Undo
pub mod Resolution
pub mod BoundedQueue
pub mod Queue
pub mod Heap
pub mod Region
pub mod Occurrences
pub mod Checker
pub mod Search
