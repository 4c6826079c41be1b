-- ===== src/Tests.antt =====
-- Concrete runs, and the theorems at concrete inputs.
mod Toy
mod Totals
mod Codec
mod Runs
mod Encodings
mod Queries
mod Sessions
mod Cpp
mod Hello
mod Linear
mod Host
mod Typed
