-- ===== src/Tests.antt =====
-- The theorems at concrete inputs, and runs of the definitions.
mod Queues
mod Scheduling
mod Life
mod Pipes
mod Buffers
mod Directory
mod Files
mod Frames
mod Trees
mod Sorting
mod Expressions
mod Paging
mod Opened
mod Allocator
mod Logging
