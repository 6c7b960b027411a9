-- ===== src/Request.antt =====
-- What the engines take from the vendored request core: `RequestContext` and the check that
-- `ensure_active` makes of it, in crates/impossible-voice-stt/src/lib.rs and
-- crates/impossible-voice-tts/src/lib.rs. The clock and the cancellation token are outside the
-- engines: each check observes them anew, so an operation takes one observation for each check.
pub mod Limiter
use impossible_voice.Prelude.{Bool, true, false}

-- `context.cancellation().is_cancelled()` and `context.remaining() == Some(Duration::ZERO)`, at one
-- moment.
pub record Moment : Type 0 where
  pub is_cancelled : Bool
  pub is_expired : Bool

abbrev pub calm : Moment
calm = record { is_cancelled = false; is_expired = false }
