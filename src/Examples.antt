-- ===== src/Examples.antt =====
-- Tests of the definitions on small inputs, and instances of the theorems at them.
mod World
mod Trees
mod Certificates
mod Chains
mod Intents
mod Dates
mod Masks
mod Passports
mod Guards
mod Swarms
mod Messages
mod Traces
mod Policies
mod Stores
mod Authorizations
mod Awaits
