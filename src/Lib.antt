-- ===== src/Lib.antt =====
-- gophersat, a SAT, pseudo-Boolean and MAXSAT solver in Go, modelled in parts: the certificate
-- checker and the extraction of minimal unsatisfiable subsets (MUS) of the package explain, the
-- types, constraints, preprocessing and optimisation loops of the package solver, the constraints
-- of the package maxsat and the formulas of the package bf.
--
-- The parts and how they interact. A problem is a list of clauses over variables; the package
-- solver decides it, and can print the clauses that it learns as a certificate. The package explain
-- reads problems in DIMACS syntax, checks such certificates by unit propagation alone, and extracts
-- from a check the clauses that it used, from which it extracts a MUS by calls of the solver.
-- Constraints over DIMACS literals are what the constructors of solver make from weights and
-- degrees. A formula of bf is put in negation normal form before it is turned into clauses for the
-- solver.
--
-- Which file models which part.
-- - Prelude and its children: the libraries' names, tests on numbers, lists by native indices, Go's
--   integers (Prelude/Int), bit masks (Prelude/Bits) and how a call ends (Prelude/Run: a value, a
--   panic, or no fuel left).
-- - Text: strings.Fields and strconv.Atoi on ASCII text, as the standard library documents them.
-- - Semantics: assignments, and what literals and clauses mean under them.
-- - Explain: explain/problem.go. Problem is the struct without its options; unsat is the method
--   (propagate, pass, visit, scan_clause and conclude are its loops and their bodies).
-- - Explain/Parse: explain/parser.go. Explain/Check: initTagged and restore of explain/problem.go,
--   and the function unsat (check_clause), UnsatChan and Unsat (unsat_chan, unsat_cert) of
--   explain/check.go. Explain/Subset: UnsatSubset.
-- - Explain/Mus: MUSInsertion of explain/mus.go, over the record Solver of Solver/Optimize and a
--   parameter for solver.New. Its children are proofs: Session on what the calls of the solver
--   tell, Transition on the inner loop, Minimal on the whole. Explain/Mus/Deletion: MUSDeletion,
--   over the record Assuming of what the solver does with assumptions. Relaxed is on the relaxation
--   literals, Rounds on the loop, Kept on what it leaves, Correct on the whole. Explain/Mus/Units:
--   makeMus.
-- - Explain/Scanning, Rounds, Loop, Rup, Certificate, Lines, Verdicts: proofs, from the scan of one
--   clause up to whole certificates.
-- - Solver/Types: solver/types.go. Solver/Pb: the constructors of solver/pb.go and solver/card.go.
-- - Solver/Problem: simplify2, addUnit and updateStatus of solver/problem.go, with NewClause and
--   Shrink of solver/clause.go; drop_duplicates, scan_lits, clause_loop and restart_loop are its
--   loops over k, j, i and restart. Its children prove what the loops keep: Literals, Units,
--   Solutions, Prefix, Settle, Simplify.
-- - Solver/SimplifyPb: simplifyPB and replicateUnits of solver/problem.go; scan_terms, pass_loop
--   and rounds are its loops over j, i and modified. Its children are proofs: Meets and States on
--   what a clause and the loop's variables mean, Scan and Terms on the loop over j, Fit, Passes and
--   Loop on the loop over i, Rounds on the outer loop, Correct on the whole.
-- - Solver/SimplifyCard: simplifyCard and addUnits of solver/problem.go; scan_card, card_loop and
--   card_rounds are its loops over j, i and restart. Its children are proofs: Scan and Binding on
--   the loop over j and on addUnits, Keeps on one clause, Loop on all of them, Correct on the
--   rounds and the whole.
-- - Solver/Parser: ParseSlice and ParseSliceNb of solver/parser.go. Its children are proofs: Lines
--   on the loop over the lines, Binding on the loop over the units, Models on the whole with
--   simplify2.
-- - Solver/ParserPb: ParsePBConstrs of solver/parser_pb.go, with the loop over the units of
--   Solver/Parser. Its children are proofs: Clauses on NewPBClause, Constraints on the meaning of a
--   constraint, Joins and Correct on the loop over the constraints and the whole.
-- - Solver/ParserCard: ParseCardConstrs of solver/parser_pb.go, with the loops over the literals
--   and the units of Solver/Parser. Its children are proofs, on the same steps.
-- - Solver/Clause: solver/clause.go, with SimplifyPB in its child Simplify. Flags, Meaning and
--   Reduction are proofs. The record of a clause stands in Solver/Problem.
-- - Solver/Optimize: Minimize, Optimal and Model of solver/solver.go, over the record Solver of the
--   operations that they call and the record Contract of what these promise. Costs is on the cost
--   of a model and the constraint that asks for a lower one, Minimum on Minimize, Results on
--   Optimal; OneVariable and ThreeVariables are solvers that keep the contract.
-- - Solver/Luby: solver/luby.go, with proofs in Sequence.
-- - Solver/Counting: countCurrentModels of solver/solver.go.
-- - Maxsat: maxsat/constr.go, and New of maxsat/problem.go up to its call of solver.New: encode_all
--   is its loop over the constraints, encode_lits the one over the literals, and new_problem the
--   whole. Its children are proofs: Names and Literals on the numbers of the variables and the
--   literals, Blocks on the blocking literals, Encoding on one constraint, Correct on all.
-- - Formula: bf/bf.go, the interface Formula with its types as constructors, Eval and nnf, Implies,
--   Eq and Xor. Formula/Unique: uniqueSmall. Formula/Cnf: litValue, dummy, cnfRec and asCnf. Its
--   other children are proofs: Meaning on Eval, Depth on the fuel, Nnf, Collect and Normal on nnf,
--   Indices, Conversion and Models on the conversion to clauses.
--
-- State. A method takes the struct and returns the new one with its result. Slices are lists; an
-- index out of range is a panic of Prelude/Run. A text reader is the list of its lines and whether
-- it fails after them; a channel is the list of the strings that are sent before it is closed.
--
-- Bounds and fuel. Go's `int` is taken for an integer: literals are bounded by the number of
-- variables, and weights and their sums are taken to fit. A `Lit` is an int32 and keeps its
-- wrap-around (Solver/Types); Var and Int stand for literals whose sign bit is clear, as the source
-- divides an int32 with its sign. Unit propagation gets as much fuel as there are clauses, and one
-- more: each round but the last marks a clause as done, and the theorems on the certificate checks
-- say that they return. The loops of simplify2 get as much fuel as there are literals or clauses,
-- and one more: each step passes one or removes one, and a restart follows the removal of a clause.
-- Those of simplifyCard and simplifyPB end the same way: the scan of a cardinality constraint gets the
-- degree on top, and simplifyPB as many rounds as there are literals and clauses, and one more. The
-- weights of a constraint are taken to sum to at most 2^31 there, and the degrees to be at most 2^30.
-- nnf gets the depth of the formula. luby gets 63 steps to find its
-- row, as the numbers are below 2^64, and as many calls as the row has predecessors. MUSInsertion
-- gets as many rounds as there are clauses, and one more: each round but the last drops one.
-- Minimize gets two rounds more than the weights make up, as each round but the last finds a lower
-- cost.
--
-- What is not modelled: output, options and statistics; the solver's search with its variable queue
-- and restart statistics (the theorems on Minimize, Optimal and the extraction of a MUS take laws of
-- it, and that on UnsatSubset a hypothesis); DetectAtMostOne and removeBinaries; ParseCNF and the OPB
-- syntax; MUSMaxSat and its satClause; uniqueRec and the parser of formulas; addCurrentModels and
-- Enumerate; Solve and the parser of the package maxsat; the command line.
pub mod Prelude
pub mod Text
pub mod Semantics
pub mod Solver
pub mod Explain
pub mod Formula
pub mod Maxsat
