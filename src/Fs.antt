-- ===== src/Fs.antt =====
-- The file systems of fs/.
pub mod Pipe
pub mod Ramfs
pub mod Files
pub mod Path
pub mod Tree
pub mod Access
