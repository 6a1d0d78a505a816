-- ===== src/Tests.antt =====
-- Examples: concrete instances of what the model takes as parameters, and the theorems applied to
-- them.
mod Networks
mod Values
mod Addresses
mod Texts
mod Records
mod Interfaces
mod Commands
mod Plugin
mod Containers
mod Backends
mod Documents
mod Programs
mod Daemons
