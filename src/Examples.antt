-- ===== src/Examples.antt =====
-- The theorems at concrete inputs, over a small world that meets what they assume.
mod World
mod Protocol
mod Calls
mod Descriptors
mod Handlers
mod Launcher
mod Poll
mod Inherit
mod Interest
mod Locks
mod Pointers
mod Workers
