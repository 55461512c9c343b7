-- ===== src/Examples.antt =====
-- Tests of the model on small inputs, and the theorems at inputs that meet their hypotheses.
mod Bars
mod Orb
mod Guards
mod Markets
mod Ladders
mod Blocks
mod Cycles
mod Desk
mod Setups
mod Rotation
mod Volumes
