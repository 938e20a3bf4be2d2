-- ===== src/Table/Tests.antt =====
-- Tests of the tables. The codec writes a value as a program that builds it on a stack.
pub mod Codec
mod Runs
