-- ===== src/Cycle.antt =====
-- The way of an inode through the queues of the buffer: which queue holds an inode in which state,
-- and what the flush (src/nvm0flush.cc) and the sync (src/nvm0sync.cc) leave of the buffer.
pub mod Queues
pub mod Flow
pub mod Take
pub mod Pass
pub mod Flush
pub mod Sync
pub mod Write
pub mod System
pub mod Run
mod Tests
