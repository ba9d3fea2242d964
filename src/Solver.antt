-- ===== src/Solver.antt =====
-- solver/: the types, constraints and problems of the solver.
pub mod Types
pub mod Pb
pub mod Problem
pub mod Parser
pub mod Clause
pub mod Optimize
pub mod Counting
pub mod Luby
pub mod SimplifyPb
pub mod SimplifyCard
pub mod ParserPb
pub mod ParserCard
