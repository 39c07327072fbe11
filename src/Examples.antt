-- ===== src/Examples.antt =====
-- Inputs at which the theorems hold, with a concrete Interix where they speak of one.
mod Mapping
mod Conversions
mod Directories
mod Terminals
mod Locks
mod Paths
mod Programs
mod Handles
mod Handler
mod Starting
