-- ===== src/AmxxModule.antt =====
-- src/sdk/amxxmodule.cpp, as src/sdk/moduleconfig.h configures it: the functions by which AMX Mod X
-- loads the module and drives it.
pub mod Functions
pub mod Requests
pub mod Macros
pub mod Errors
pub mod Config
pub mod Logging
pub mod Exports
pub mod Life
pub mod Signatures
pub mod Memory
pub mod Metamod
