-- ===== src/Tests.antt =====
-- Runs of the definitions on concrete input, and the theorems at concrete input.
mod Blocks
mod Brackets
mod Cleansing
mod Config
mod Driver
mod Files
mod Includes
mod LineChecks
mod Paths
mod Reports
mod Lines
mod Style
