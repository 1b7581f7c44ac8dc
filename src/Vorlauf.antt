-- ===== src/Vorlauf.antt =====
-- The character driver of the other group, Aufgabe4/vorlauf/translate/translate.c: two semaphores
-- count the free and the filled places of the buffer.
pub mod Chars
pub mod SameChars
pub mod Device
pub mod Counted
pub mod Write
pub mod Read
pub mod Same
pub mod Wakes
pub mod Locks
pub mod Module
pub mod Loaded
