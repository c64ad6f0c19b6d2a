-- ===== src/Finder.antt =====
-- The fuzzy finder that shares src/ with the server: vim9-fuzzy and the files it is built from.
pub mod Growth
pub mod Pool
pub mod Escape
pub mod Jobs
pub mod Mru
pub mod Fuzzy
pub mod Text
pub mod Input
pub mod Reply
pub mod Lines
pub mod Query
pub mod Grep
pub mod Parse
pub mod Yank
