-- ===== src/Vm.antt =====
-- The virtual machine's instructions (the directory vm).
pub mod Machine
pub mod Register
pub mod Stack
pub mod Control
pub mod Sem
pub mod Msg
pub mod Transfer
pub mod Roundtrip
pub mod Retry
pub mod Blocking
pub mod Arith
pub mod Order
pub mod Io
pub mod Exec
pub mod Tick
pub mod Dispatch
pub mod Printing
pub mod Reading
pub mod Quiet
mod Tests
mod TickTests
