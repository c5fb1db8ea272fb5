-- ===== src/Examples.antt =====
-- Runs of the definitions on concrete data, and each theorem applied to some.
mod Values
mod Format
mod Reading
mod Writing
mod Linear
mod Indexed
