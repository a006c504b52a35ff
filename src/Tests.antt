-- ===== src/Tests.antt =====
-- Runs of the definitions and uses of the theorems at concrete inputs.
mod Wire
mod Serving
mod Attackers
mod Table
mod Reporting
mod Exchange
mod Faces
