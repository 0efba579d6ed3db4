-- ===== src/Tests.antt =====
-- The instances of the theorems at concrete inputs.
pub mod TerminalTests
pub mod DeviceTests
pub mod MemoryTests
pub mod KeyboardTests
pub mod PrintkTests
pub mod ShellTests
pub mod BootTests
pub mod ProgramTests
