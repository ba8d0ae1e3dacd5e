-- ===== src/Kernel.antt =====
-- The kernel proper, kernel/: tasks, the scheduler, wait queues and signals.
pub mod Task
pub mod Pid
pub mod Sched
pub mod Signal
pub mod Initrd
pub mod Cred
pub mod Elf
pub mod Process
mod Tests
