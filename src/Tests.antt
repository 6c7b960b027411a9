-- ===== src/Tests.antt =====
-- Runs of the model on concrete inputs, and the theorems at them.
mod Pcm
mod Resampling
mod Vad
mod Engines
mod Recognition
mod Realtime
mod Artifacts
mod Trees
mod Grpc
mod Http
mod Configuration
