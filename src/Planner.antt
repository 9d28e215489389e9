-- ===== src/Planner.antt =====
-- The planner of rlink/src/dag: from the operators that a program adds to the tasks of the workers.
pub mod Dag
pub mod Operators
pub mod Stream
pub mod Job
pub mod Execution
pub mod Workers
mod ListDag
mod Tests
mod GraphTests
mod JobTests
