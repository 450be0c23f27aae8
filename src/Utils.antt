-- ===== src/Utils.antt =====
-- utils/generate.go: groups of four operators, and the generator of validators in groups.
pub mod Outcome
pub mod Group
pub mod RandGroup
pub mod Generate
