-- ===== src/Device.antt =====
-- kernel/src/device: the drivers, over the registers of the hardware.
pub mod Registers
pub mod InterruptController
pub mod Serial
pub mod Timer
