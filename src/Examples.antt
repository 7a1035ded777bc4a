-- ===== src/Examples.antt =====
-- Concrete tables, addresses and runs: the tests of the model, and the theorems at concrete inputs.
mod Assoc
mod Table
mod Runs
mod Nodes
mod Diagrams
mod Sets
mod Files
mod Walks
mod Maps
mod Assignments
mod Dispatch
mod Build
mod Programs
