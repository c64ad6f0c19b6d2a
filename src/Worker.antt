-- ===== src/Worker.antt =====
-- src/git_handler.c: the tasks of a request, their threads and the worker that collects them. A
-- task's result is its code and the text it appended to its own buffer. `none` is a fault of the
-- process. The durations and log lines of the steps are not modelled.
pub mod Request
pub mod Tasks
pub mod Threads
pub mod Handler
pub mod Gates
pub mod Collected
pub mod Whole
pub mod Life
