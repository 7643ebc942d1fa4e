-- ===== src/Tests.antt =====
-- Tests by evaluation, and the theorems at concrete inputs.
mod Inputs
mod Runs
mod Filled
mod Witnesses
mod SlotWitnesses
mod StoreWitnesses
mod Crowd
mod StoreRuns
mod Drained
mod Squeezed
mod ChainCalls
