-- ===== src/Tests.antt =====
-- Runs of the definitions on small inputs, and the theorems at such inputs.
mod Rings
mod Generators
mod Accumulators
mod Sockets
mod BuilderUnits
mod ReadoutUnits
mod Setups
mod Pools
mod Logs
mod Lengths
mod Fabrics
mod Jobs
mod Connections
mod Rounds
mod Programs
mod Matches
mod Builds
mod Timers
mod Addresses
