-- ===== src/Tests.antt =====
-- Concrete clients, tests of the definitions, and instances of the theorems.
mod Memory
mod Setting
mod Texts
mod Limits
mod Submissions
mod Reads
mod Keys
mod Accounts
mod Streams
mod Probes
mod Loads
mod Requests
mod Processes
mod Deliveries
mod Lifecycles
mod Starts
mod Overshoots
mod Whole
