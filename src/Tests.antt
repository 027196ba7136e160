-- ===== src/Tests.antt =====
-- Concrete runs of the definitions, and the theorems at concrete inputs.
mod OfCache
mod OfCore
mod OfKv
mod OfHeat
mod OfRouting
mod OfSidecar
mod OfReading
mod OfGeneration
