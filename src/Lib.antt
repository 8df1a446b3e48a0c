-- ===== src/Lib.antt =====
-- Verification library of gazer, a verification framework for C programs: its expression language
-- (include/gazer/Core, src/Core), the walker that traverses expressions without recursion, the
-- evaluator and the rewriter that stand on it, the table that keeps one expression for each structure, the
-- expression builder that folds constants, the construction, path conditions and common dominators of
-- control flow automata, and the scoped cache and the S-expressions that support them.
--
-- How the parts interact: an expression is a node of one of the kinds of ExprKind.def over operands, made
-- by the `Create` function of its class, which asserts that the operands fit, and which looks the node up
-- in the ExprStorage of its context, so that there is one expression for each structure. ExprWalker
-- visits the nodes in post-order with a stack of frames. ExprEvaluatorBase is a walker whose visits
-- compute the literal, or the undef, that a node has as its value, the variables' values being given by a
-- Valuation. ExprRewrite is a walker that makes each node again from its rewritten operands with an
-- ExprBuilder. FoldingExprBuilder makes nodes as the base builder does, but looks at the operands and
-- folds or simplifies first. An automaton's transitions carry guards and assignments, which are
-- expressions; PathConditionCalculator makes one formula for all paths between two locations with a
-- builder, and the searches for dominators find a location that all paths to some transitions share.
--
-- Core: the data. `Core.Ty` is Type with its subclasses (include/gazer/Core/Type.h, src/Core/Type.cpp),
--   for types of one context, and `Core.Ty.Contexts` the comparison of types of any contexts,
--   `Core.Literal` the literals and undef (LiteralExpr.h), `Core.Expr` the expressions by kind (Expr.h,
--   ExprTypes.h, Expr/ExprKind.def) with the type that each one has, `Core.Create` the Create functions
--   (src/Core/Expr.cpp), which are faults where the code asserts. Expressions are interned in the
--   program, so `==` on pointers is equality of structure here (`same`). `Core.Storage` is the table that
--   interns them (src/Core/GazerContextImpl.h, src/Core/GazerContext.cpp), over any nodes with a hash
--   code: `Chains` and `Rehash` have the lemmas on its lists, `Interned` its invariant, `Created`
--   creation, `Nodes` the comparison of nodes by the specialisations of expr_hasher, `Trees` and `Build`
--   expressions with operands that the table holds. `Core.Builder` is ExprBuilder (Expr/ExprBuilder.h,
--   src/Core/Expr/ExprBuilder.cpp) with the base class, its theorems in `Resize` and `Insert`,
--   the latter on the lemmas of `Members`.
--   `Core.Llvm` is the parameter for llvm::APInt and llvm::APFloat, with their documented behaviour.
-- Walker: include/gazer/Core/Expr/ExprWalker.h. `Walker.Stack` has Frame, the loop of `walk` by rounds,
--   and the hooks shouldSkip and handleResult over a state of the derived class; `Walker.Order` the
--   operands and the recursive post-order, `Walker.Size` the number of nodes, `Walker.Rounds` what the
--   rounds for one frame do, `Walker.Correct` the walk as a whole.
-- Rewrite: include/gazer/Core/Expr/ExprRewrite.h and src/Core/Expr/ExprRewrite.cpp. `Rewrite.Node` has
--   the node made again from other operands, `Node.Checks` and `Node.Values` its checks and its value,
--   `Sound` what is asked of a builder, and that the base class has it, `Substitution` the rewriter as a
--   whole.
-- Evaluator: src/Core/Expr/ExprEvaluator.cpp and include/gazer/Core/Expr/ExprEvaluator.h.
--   `Evaluator.Arithmetic` is EvalBinaryArithmetic and the bit-vector visits, `Evaluator.Compare`
--   EvalBinaryCompare with EvalBvCompare and EvalIntCompare, `Evaluator.Logic` the connectives, Select,
--   the array read and the floating-point queries and bit casts, `Evaluator.Visit` the dispatch by kind,
--   getVariableValue and evaluate. `Modulo`, `Connectives` and `Negation` have the theorems, `Walk` the
--   lemma that connects evaluate with the recursion over the expression.
-- Folding: src/Core/Expr/FoldingExprBuilder.cpp. `Folding.Match` has the casts and patterns
--   (include/gazer/Core/Expr/Matcher.h), `Logic`, `Arithmetic`, `Compare`, `Select` and `Misc` the
--   methods by group; `ArithmeticSound`, `AndSound`, `OrSound`, `BuildLtEq`, `SelectSwap` and `Recursion`
--   the theorems, on the lemmas of `Values`, `Operands`, `Steps`, `OperandValues`, `AndLoop`, `OrLoop`,
--   `Moves`, `IntValues` and `LtEqSound`.
-- Automaton: `Automaton.Cfa` has the transitions (include/gazer/Automaton/Cfa.h). `Automaton.Build` is
--   the construction of automata (src/Automaton/Cfa.cpp): createLocation, createErrorLocation, both
--   methods for transitions, addErrorCode and the lookups; `Numbers` has the numbers of locations,
--   `Edits` sequences of operations. `Automaton.Variables` has the variables of an automaton, of the same
--   file, with the names that the context has for them (src/Core/GazerContext.cpp); `Numerals` the lemmas
--   on numerals, `Fresh` those on the loop for a new name, `Found` the theorem.
--   `Automaton.PathCondition`, of src/Automaton/CfaUtils.cpp, is encode with its loops and the callback;
--   `Meaning` says what its formulas mean and what is asked of a builder, `Formula` and `Correct` have
--   the lemmas and the theorem, `PlainBuilder` the base class ExprBuilder as such a builder.
--   `Automaton.Dominators`, of the same file, has findLowestCommonDominator and
--   findHighestCommonPostDominator with the rows of bits; `Bits`, `Rows`, `Common` and `Extreme` the
--   lemmas that both share, `Order`, `Predecessors` and `Lowest` those of the first, `Successors` and
--   `Highest` of the second. `Automaton.CallGraph` is src/Automaton/CallGraph.cpp, with its theorem in
--   `Calls`, on the lemmas of `Added`. `Automaton.Unreachable` is removeUnreachableLocations of
--   src/Automaton/Cfa.cpp on `Support.Graph`, with its theorem in `Reached`. A location is its address;
--   `incoming`, `outgoing` and `index` read the heap.
-- Support: `Support.Sexpr` is src/Support/SExpr.cpp, with the parser, the printer and the comparison,
--   `Support.ScopedCache` is include/gazer/ADT/ScopedCache.h, `Support.Algorithm`
--   include/gazer/ADT/Algorithm.h. `Support.Graph` is include/gazer/ADT/Graph.h: `Linked` has the
--   theorems on its operations, `Cleared` the one on clearing, `Remove` the lemmas on lists and heaps
--   that are changed in one place, `Detach` those on the loops of disconnectNode, `Ends` those on the
--   edges that it leaves.
-- Base: shared names, lists, integers, and results: `ok`, or a fault for a failed assertion, a failed
--   cast, a null pointer followed, llvm_unreachable, and undefined behaviour. Examples: a machine for
--   the parameter, the proof that it keeps the documented behaviour, and the theorems at inputs.
--
-- Numbers: Int is `long long int`, whose overflow is undefined and a fault here; a bit-vector literal
-- is its width and a number, and the operations of APInt wrap around at the width. A Real literal is
-- its numerator and denominator. An `unsigned` counter, and the sum of two such numbers in Extract, wrap
-- around at 2 ^ 32.
-- Fuel: the loop of `walk` takes two rounds for each node at most, one to push its frame and one to
-- finish it. `fold_binary_expr` calls itself with its operands swapped, and two steps are enough where
-- it ends at all. The parser of S-expressions takes fuel, since it need not end; the size of a value
-- (`steps`) is enough for the text of the value. The loop of createMemberVariable takes a step for each
-- variable of the context that has the name it tries, and two more.
--
-- Parameters: the hash codes that LLVM and boost compute, the addresses that `new` gives, the sort of the
-- locations and their indexes, the formulas of calls, the variables that the context makes, the locations
-- that the depth-first search of LLVM visits, and llvm::StringRef::trim. Locale and encoding are those of
-- the "C" locale.
--
-- Not modelled: the table of types (GazerContext), removeVariable, the destruction of expressions that have
-- operands, the Boolean literals' place outside the table, the allocator of the walker, printing of
-- expressions, the rewriting of recursive automata, the LLVM front end, the
-- solver, the bounded model checker, traces and tools: most of them translate to and from the data
-- structures of LLVM and Z3, which are not part of the repository.
pub mod Automaton
pub mod Base
pub mod Core
pub mod Walker
pub mod Evaluator
pub mod Folding
pub mod Examples
pub mod Support
pub mod Rewrite
