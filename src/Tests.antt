-- ===== src/Tests.antt =====
-- Runs of the model on concrete inputs, and the theorems at such inputs.
mod World
mod Runs
mod Texts
mod Reports
mod Commands
mod Locks
mod Settings
mod Printing
mod Machines
mod Handlers
mod Tables
mod Repeats
mod Servers
