-- ===== src/Gdb.antt =====
-- The debugger stub of src/gdb/Gdb.cc: hexadecimal text, packets on the serial line, and the handlers
-- of requests.
pub mod Hex
pub mod Packet
pub mod Digits
pub mod Receive
pub mod Stub
pub mod Break
pub mod Registers
pub mod Breakpoints
pub mod Dispatch
mod Tests
