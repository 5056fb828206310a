-- ===== src/Tests.antt =====
-- Runs of the model and the witnesses of the theorems.
mod Programs
mod Analysis
mod Scopes
mod Passes
mod Types
mod Aliases
mod Materials
mod Parser
mod Frontend
mod Printer
mod Console
mod Package
mod Runtime
mod HeapMap
mod Tool
mod Driver
mod Graph
