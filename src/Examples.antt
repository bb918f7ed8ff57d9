-- ===== src/Examples.antt =====
-- Tests of the definitions, and the theorems at concrete inputs.
mod Values
mod Stores
mod Worlds
mod Workers
mod Clients
mod Startup
