-- ===== src/Audio.antt =====
-- The audio code that does not need a device.
pub mod Wav
pub mod Voices
