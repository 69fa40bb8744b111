-- ===== src/HLink.antt =====
-- hlinkstate.h and hlinkstate.cpp: which files of the source are hard links of one another, and of the
-- destination.
pub mod Lmdb
pub mod Tables
mod Tests
pub mod Links
