-- ===== src/Examples.antt =====
-- Concrete runs: the theorems at inputs where their hypotheses hold, and tests of the models.
mod Data
mod Claims
mod Processing
mod Serving
mod Consuming
mod Composing
mod Replaying
mod Starting
mod Draining
mod Reading
mod Racing
