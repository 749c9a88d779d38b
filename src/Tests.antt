-- ===== src/Tests.antt =====
-- Concrete runs, and the theorems at concrete inputs.
mod Book
mod Parts
mod Sorting
mod Levels
mod Sides
mod Whole
mod Behind
mod Interleaving
mod Sockets
mod Round
