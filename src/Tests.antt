-- ===== src/Tests.antt =====
-- Concrete inputs for the theorems, by the part of the program that they are about.
mod Data
mod Protocol
mod Store
mod Actor
mod Forks
mod Puts
mod Duty
mod Facade
mod Log
mod Server
mod Stitched
