-- ===== src/GoStd.antt =====
-- The parts of Go's standard library that netbootd's own logic rests on, modelled from their
-- documentation: `strings`, `path/filepath` on Unix, `net` addresses and hardware addresses, and what is read of an
-- opened file.
pub mod Strings
pub mod Filepath
pub mod Ip
pub mod Mac
pub mod Files
pub mod Mask
