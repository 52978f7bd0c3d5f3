-- ===== src/Examples.antt =====
-- Runs of the parts on the inputs of tests/conftest.py, and the theorems at those inputs.
mod Setup
mod Evaluation
mod Runs
mod PartRuns
mod Ready
mod Witnesses
mod DeliveryWitnesses
mod ProgramWitnesses
mod PartWitnesses
mod LoopWitnesses
mod VectorWitnesses
