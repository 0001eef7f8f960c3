-- ===== src/Workloads.antt =====
-- The Python workloads of the simulated factory, workloads/*/main.py: what each keeps between its inputs.
pub mod Ingest
pub mod Cooling
pub mod Vision
