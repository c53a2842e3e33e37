-- ===== src/Abi.antt =====
-- kernel/src/abi.
pub mod SystemCalls
pub mod InterruptRouter
pub mod SysWrite
