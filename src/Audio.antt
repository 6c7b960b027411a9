-- ===== src/Audio.antt =====
-- crates/impossible-voice-audio/src/lib.rs
pub mod Float
pub mod Fixed
pub mod Admission
pub mod Pcm
pub mod Wav
pub mod Incremental
pub mod Resample
pub mod Vad
