-- ===== src/Programs.antt =====
-- The repository's programs around the protocol: examples/demo.py, examples/strict_non_bearer.py, the
-- set-up of scripts/benchmark.py, and the two scripts in vectors. What they print and the files
-- that they write are left out; a reading of the clock is an argument.
mod Times
pub mod Session
pub mod Trail
pub mod Throughput
pub mod Demo
pub mod NonBearer
pub mod Cases
pub mod Benchmark
pub mod Vectors
