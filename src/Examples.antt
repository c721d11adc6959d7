-- ===== src/Examples.antt =====
-- Concrete inputs: a toy world for the services, and each part of the development at work on them.
pub mod ToyWorld
mod Parsing
mod Services
mod Runtime
pub mod ToyKernel
mod Network
mod ToySockets
mod Logging
pub mod Serving
mod StartUp
mod Requests
