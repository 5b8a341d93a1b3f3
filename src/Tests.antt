-- ===== src/Tests.antt =====
-- Concrete inputs: the theorems applied where their hypotheses hold, and runs of the definitions.
mod Instance
mod Caches
mod Memory
mod Translation
mod Instructions
mod Machine
mod Runs
mod Devices
