-- ===== src/Lib.antt =====
-- impossible-voice is a local speech server: raw PCM16 or WAV audio comes in, goes through an
-- incremental decoder, a resampler to 16 kHz and an energy detector of utterances into a native
-- recognizer, and text goes through a native synthesizer out into WAV, PCM16 or transport chunks.
-- Both engines are bounded: by limits on bytes and durations that are checked before anything is
-- allocated, by a counter of permits, and by the cancellation and the deadline of each request.
--
-- Prelude: lists, tests, results and machine words that all parts share. `Prelude.Chunks` is
-- `slice::chunks` and `usize::div_ceil` of the standard library.
--
-- Audio: crates/impossible-voice-audio/src/lib.rs.
--   Audio.Float      the operations on f32 and f64 as a record, and the laws that are relied on
--   Audio.Fixed      a concrete instance of them, for evaluation
--   Audio.Admission  AudioError, AudioLimits (new, admit), validate_rate
--   Audio.Pcm        MonoPcm: new, from_pcm16_le, to_pcm16_le; float_to_i16; validate_pcm
--   Audio.Wav        MonoPcm::from_wav and to_wav_pcm16, read_u32, parse_wave_format
--   Audio.Incremental  IncrementalPcm16: new, push, finish
--   Audio.Resample   MonoPcm::resample and StreamingResampler: new, push
--   Audio.Vad        EnergyVad: new, process, samples_for, reset
-- Request: what the engines observe of a RequestContext, and the counter of permits that
--   crates/impossible-voice-stt/src/lib.rs and crates/impossible-voice-tts/src/lib.rs declare.
-- Stt: crates/impossible-voice-stt/src/lib.rs.
--   Stt              SttEngine: with_backend, transcribe, and its types
--   Stt.Session      StreamingSession: push_pcm16, finish
--   Stt.Start        SttEngine::start_stream
--   Stt.Wellformed, Stt.Fencing, Stt.Updates, Stt.Engine   proofs
-- Tts: crates/impossible-voice-tts/src/lib.rs: Synthesis and TtsEngine.
-- Server: crates/impossible-voice-server/src/voice_api.rs, and the configuration.
--   Server           VoiceBackendError, map_stt_error, map_tts_error
--   Server.Socket    the types of a realtime session, send_event, send_error, send_transcript,
--                    fail_backend, and the start and the end of a recognition
--   Server.Dialogue  handle_client_event, websocket_loop, websocket_session
--   Server.Protocol, Server.Ready, Server.Rounds, Server.Termination   proofs
--   Server.Http      the HTTP handlers: native_transcription, openai_transcription, speech; proofs in
--                    Server.Http.Fields
--   Server.Grpc      crates/impossible-voice-server/src/grpc.rs: transcribe and what all calls share
--   Server.Grpc.Transcribe, Server.Grpc.Speech   stream_transcribe; synthesize, stream_synthesize
--   Server.Grpc.Told, Server.Grpc.Chunked, Server.Grpc.Rejected   proofs
--   Server.Config    crates/impossible-voice-server/src/config.rs: PartialConfig, resolve and what
--                    it calls; proofs in Server.Config.Layers
-- Artifacts: crates/impossible-voice-artifacts/src/lib.rs.
--   Artifacts           the types of the store, safe_relative_path, strip_archive_root
--   Artifacts.Manifest  parse_manifest, validate_artifact, select_artifacts, current_platform
--   Artifacts.Installed verify_archive_file, inventory_files, verify_object
--   Artifacts.Extract   extract_verified_archive behind the decoders, write_extracted_file
--   Artifacts.World     the root of the store, the parameters of the code, recover_path
--   Artifacts.Download  download
--   Artifacts.Store     ensure_artifact, setup
--   Artifacts.Profile   status, verified_kind_path, verified_profile
--   the other modules   proofs
-- Tests: all of them at concrete inputs.
--
-- A u64, u32 or usize is a natural number; a checked or saturating operation of the source is one
-- on the model's words (Prelude.Word), and usize has 64 bits. Bytes are numbers. A method on `&mut
-- self` returns its state beside the result where it can fail behind a change. Floats are a
-- parameter (Audio.Float.Floats); a theorem that needs a law of IEEE arithmetic names it as a
-- hypothesis, and Audio.Fixed has it. The chunk loop of from_wav runs on the number of bytes as its
-- fuel, which is enough since every round moves the offset on by at least eight. The loops of the
-- resamplers run as many rounds as there are samples to put out. A streaming session counts its
-- looks at the context and the streams that it opens, and keeps a row of its calls of
-- ensure_active, accept, interim, finish and open_stream; a clock says what each look sees, so that
-- a proof about all clocks covers a cancellation at any moment. The drop of a permit stands where
-- the source's scope ends. A realtime session reads a row of messages; its loop runs on their
-- number and one as its fuel, since every round takes a message. The walk of an installed object
-- runs on fuel, which the measure of a finite tree bounds. The calls of the artifact store are
-- counted, all but the reads of a verification, and a parameter says which of them fail; a
-- verification reads the files as they stand at one time, where any may be missing or not be
-- readable. A gRPC stream is a row of messages with what comes behind them, and a function says
-- which answers are taken.
--
-- Not modelled: the native bindings (parameters of the engines), the vendored request core (its
-- observations are parameters), the MCP transport, the start and the shutdown of the server with the
-- loading of its engines, the command-line parser and the construction of the download client.
mod Prelude
pub mod Audio
pub mod Request
pub mod Stt
pub mod Tts
pub mod Server
pub mod Artifacts
mod Tests
