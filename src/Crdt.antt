-- ===== src/Crdt.antt =====
-- Client/CRDT.h and Client/CRDT.cpp: the replicated document of one editor.
pub mod Position
pub mod Search
pub mod Lines
pub mod State
pub mod Local
pub mod Remote
pub mod Converge
