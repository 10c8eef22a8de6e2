-- ===== src/Launcher.antt =====
-- src/launcher.cpp and src/config.hpp: the options of the program, and what it starts.
pub mod Config
pub mod Options
pub mod Packets
pub mod Start
pub mod Session
pub mod Main
