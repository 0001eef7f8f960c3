-- ===== src/Tests.antt =====
-- Concrete runs: each theorem of the library at an input of the repository's factory.
mod Fixtures
mod Digraph
mod Signals
mod Graphs
mod Rankings
mod Memories
mod Incidents
mod Passes
mod Rendering
mod Gateway
mod Services
mod Storage
mod Totality
mod Factory
mod Firing
