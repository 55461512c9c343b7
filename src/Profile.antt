-- ===== src/Profile.antt =====
-- The volume profile of orb/svp/profile.py.
pub mod Rows
pub mod Histogram
pub mod Area
pub mod Within
pub mod Enclosed
pub mod Nodes
pub mod Client
