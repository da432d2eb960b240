-- ===== src/Examples.antt =====
-- The theorems applied to small concrete inputs: the samples, and one module per part.
mod Configs
mod Samples
mod Resources
mod Agents
mod Nodes
mod Offering
mod Launching
mod Multicasting
mod Faking
mod Naming
mod Subarrays
