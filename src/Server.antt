-- ===== src/Server.antt =====
-- crates/impossible-voice-server: the errors that all transports share, and the transports.
pub mod Socket
pub mod Dialogue
pub mod Protocol
pub mod Ready
pub mod Rounds
pub mod Config
pub mod Termination
pub mod Grpc
pub mod Http
use impossible_voice.Stt.{SttError}
use impossible_voice.Stt
use impossible_voice.Tts.{TtsError}
use impossible_voice.Tts

-- `VoiceBackendError`, voice_api.rs.
pub data VoiceBackendError : Type 0 where
  invalid_input busy cancelled deadline_exceeded engine : VoiceBackendError

unfoldable pub map_stt_error : SttError → VoiceBackendError
map_stt_error Stt.invalid_input = invalid_input
map_stt_error Stt.audio = invalid_input
map_stt_error Stt.busy = busy
map_stt_error Stt.cancelled = cancelled
map_stt_error Stt.deadline_exceeded = deadline_exceeded
map_stt_error Stt.engine = engine

unfoldable pub map_tts_error : TtsError → VoiceBackendError
map_tts_error Tts.invalid_input = invalid_input
map_tts_error Tts.output = invalid_input
map_tts_error Tts.busy = busy
map_tts_error Tts.cancelled = cancelled
map_tts_error Tts.deadline_exceeded = deadline_exceeded
map_tts_error Tts.engine = engine
