-- ===== src/Task.antt =====
-- kernel/src/task.
pub mod Scheduler
pub mod Elf
pub mod ContextSwitch
pub mod CpuContext
pub mod TaskCreation
pub mod TaskExecution
