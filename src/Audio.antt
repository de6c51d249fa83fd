-- ===== src/Audio.antt =====
-- audio/src/audio.cpp: Opus packets on a datagram channel and their playout.
pub mod Packet
pub mod Jitter
pub mod Channel
mod Tests
