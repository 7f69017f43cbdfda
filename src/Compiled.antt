-- ===== src/Compiled.antt =====
-- Compiled scripts: the C interface of src/abi/gzscript_abi.h, the conversion of values in
-- src/gz_value_codec.cpp, and the loading of a module in src/gz_compiled_module.cpp.
pub mod Abi
pub mod Engine
pub mod Codec
pub mod Validate
pub mod Load
pub mod Calls
mod Tests
