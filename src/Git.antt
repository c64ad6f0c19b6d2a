-- ===== src/Git.antt =====
-- src/git_handler.c: the queries on a repository. What the code uses of libgit2 is the record
-- `Git`; what it does with its output buffer, its handles and its log is the monad `M`.
pub mod Api
pub mod Store
pub mod Refs
pub mod History
pub mod Log
pub mod Branches
pub mod Capture
pub mod Status
pub mod Config
pub mod Diffs
pub mod Graph
pub mod Tags
pub mod Worktrees
