-- ===== src/Stream.antt =====
-- readn.cpp, writen.cpp, readline.cpp and str_echo.cpp: whole transfers over a byte stream whose
-- system calls may transfer less than was asked for.
pub mod Supply
pub mod Readn
pub mod Writen
pub mod Readline
mod Tests
