-- ===== src/Tests.antt =====
-- The properties at concrete inputs, and small runs of the definitions.
mod Slices
mod Sidecars
mod Turns
mod Frames
mod Chains
mod Sessions
mod Files
mod Store
mod Hops
