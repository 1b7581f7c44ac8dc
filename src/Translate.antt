-- ===== src/Translate.antt =====
-- The character driver of Aufgabe4_final/translate.c.
pub mod Chars
pub mod RoundTrip
pub mod Device
pub mod Queue
pub mod Ends
pub mod Write
pub mod Read
pub mod Stream
pub mod Together
pub mod Locks
pub mod Module
pub mod Loaded
