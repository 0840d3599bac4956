-- ===== src/FsUtil.antt =====
-- `FSUtil` of sylar/util.h and sylar/util.cpp: names of files, and directories made on the way to one.
pub mod Paths
pub mod Mkdir
pub mod Files
pub mod Rm
pub mod Removal
mod Tests
