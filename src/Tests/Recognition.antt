-- ===== src/Tests/Recognition.antt =====
-- The recognition engine and a session of it, with a recognizer whose text is the number of the
-- samples that it has heard.
use impossible_voice.Prelude.{
  ◌++◌, ℕ, zero, suc, ◌+◌, ◌≡◌, ◌<◌, refl, ◌⊎◌, inl, false, List, [], ◌∷◌, ◌==◌, arith, none,
  length, ok, err, chunks,
}
use impossible_voice.Audio.Fixed.{Fixed, fixed}
use impossible_voice.Audio.Admission.{default_limits, validate_rate, admit}
use impossible_voice.Audio.Pcm.{MonoPcm, validate_pcm, new_pcm}
use impossible_voice.Audio.Incremental.{IncrementalPcm16, drain_pairs, decode_frame}
use impossible_voice.Audio.Incremental
use impossible_voice.Audio.Resample.{
  StreamingResampler, output_count, sample_at, render, resample, push_rounds,
}
use impossible_voice.Audio.Resample
use impossible_voice.Audio.Vad.{
  VadConfig, samples_for, advance, process, is_voiced, sum_squares, count_frame, transition,
}
use impossible_voice.Request.{Moment, calm}
use impossible_voice.Request.Limiter.{new_limiter, acquire}
use impossible_voice.Stt.{
  SttError, Transcript, Recognizer, interim, final, default_stt_limits, ensure_active, recognize,
  convert_and_recognize, transcribe,
}
use impossible_voice.Stt.Session.{
  reads_interim, peek, Call, checks_context, accepts_samples, reads_final, StreamingSession, look,
  hear, conclude, decode, convert, detect, announce, mark_heard, report, frame_step, frame_loop,
  drain_frames, push_frames, push_converted, push_decoded, push_pcm16, flush, last_text,
  finish_decoder, mark_finished, return_text, finish_unfinished, clear_residual, finish,
}
use impossible_voice.Stt.Start.{start_stream}
use impossible_voice.Stt.Wellformed.{IsWellformed, push_pcm16-IsWellformed}
use impossible_voice.Stt.Fencing.{IsActive, guarded, Fenced, push_pcm16-Fenced, finish-Fenced}
use impossible_voice.Stt.Updates.{AreNew, last_shown, push_pcm16-AreNew}
use impossible_voice.Stt.Engine.{transcribe-eq-ok, start_stream_lem}

abbrev counter : Recognizer Fixed
counter = record {
  Text = ℕ;
  no_text = 0;
  text_is_empty = λ t. t == 0;
  text_eq = λ t u. t == u;
  Stream = ℕ;
  open_stream = λ n. ok 0;
  accept = λ heard samples. (heard + length samples, ok tt);
  read_interim = λ heard. ok heard;
  read_final = λ heard. (heard, ok heard);
}

abbrev always : ℕ → Moment
always n = calm

abbrev silence : ℕ → List Fixed
silence zero = []
silence (suc n) = record { negative = false; magnitude = 0 } ∷ silence n

abbrev config : VadConfig Fixed
config = record {
  rms_threshold = record { negative = false; magnitude = 491 };
  min_speech_ms = 100;
  trailing_silence_ms = 600;
  max_utterance_ms = 30_000;
}

-- One sample less than a frame is at hand.
abbrev session : StreamingSession Fixed ℕ ℕ
session = record {
  stream = 0;
  decoder = record { sample_rate = 16_000; limits = default_limits; samples = []; pending = none };
  resampler = record { source_rate = 16_000; target_rate = 16_000; input = []; next_output = 0 };
  vad = record {
    config = config;
    sample_rate = 16_000;
    speech_run = 0;
    silence_run = 0;
    utterance_samples = 0;
    active = false;
  };
  max_chunk_bytes = 65_536;
  residual = silence 319;
  last_interim = 0;
  last_final = none;
  current_has_audio = false;
  finished = false;
  looks = 1;
  opened = 1;
  calls = [];
}

abbrev heard : StreamingSession Fixed ℕ ℕ
heard = (push_pcm16 fixed counter always (1 ∷ 0 ∷ []) session).0

abbrev told : List (Transcript ℕ)
told = record { kind = interim; text = 320 } ∷ []

pushed : push_pcm16 fixed counter always (1 ∷ 0 ∷ []) session ≡ (heard, ok told)
unfolding push_pcm16 push_decoded push_converted push_frames frame_loop frame_step look hear
    mark_heard detect report peek announce decode convert drain_frames ensure_active admit
    Incremental.push Resample.push output_count push_rounds render sample_at decode_frame
    drain_pairs process advance count_frame transition is_voiced sum_squares samples_for chunks
pushed = refl

session-IsWellformed : IsWellformed fixed counter always session
unfolding samples_for
session-IsWellformed = record {
  leftover = omega arith;
  counting = record {
    idle = λ _. (refl, refl, omega arith);
    open_silence = λ e. cc;
    one_run = inl refl;
    min_speech = omega arith;
    trailing = omega arith;
  };
  fresh = λ e. refl;
  silent = λ e. refl;
}

push_pcm16-IsWellformed_example : IsWellformed fixed counter always heard
push_pcm16-IsWellformed_example =
    push_pcm16-IsWellformed fixed counter always (1 ∷ 0 ∷ []) session session-IsWellformed

push_pcm16-AreNew_example :
    AreNew fixed counter 0 told × (heard.last_interim ≡ last_shown fixed counter 0 told)
push_pcm16-AreNew_example =
    push_pcm16-AreNew fixed counter always (1 ∷ 0 ∷ []) session heard told pushed

-- The look before the call, the frame behind its look, its interim text, and the look behind the
-- frames.
abbrev asked : List Call
asked =
    checks_context calm
    ∷ reads_interim
    ∷ accepts_samples
    ∷ checks_context calm
    ∷ checks_context calm
    ∷ []

heard-calls : heard.calls ≡ asked
unfolding push_pcm16 push_decoded push_converted push_frames frame_loop frame_step look hear
    mark_heard detect report peek announce decode convert drain_frames ensure_active admit
    Incremental.push Resample.push output_count push_rounds render sample_at decode_frame
    drain_pairs process advance count_frame transition is_voiced sum_squares samples_for chunks
heard-calls = refl

push_pcm16-Fenced_example :
    (row : List Call) × (heard.calls ≡ row ++ session.calls) × Fenced guarded row
push_pcm16-Fenced_example =
    push_pcm16-Fenced fixed counter always (1 ∷ 0 ∷ []) session heard told pushed

-- All samples heard, and one frame in the decoder.
abbrev ending : StreamingSession Fixed ℕ ℕ
ending = record session {
  decoder = record {
    sample_rate = 16_000;
    limits = default_limits;
    samples = silence 2;
    pending = none;
  };
  residual = silence 2;
  stream = 320;
  looks = 4;
}

abbrev closed : StreamingSession Fixed ℕ ℕ
closed = (finish fixed counter always ending).0

abbrev last_words : Transcript ℕ
last_words = record { kind = final; text = 322 }

finished :
    (finish fixed counter always ending ≡ (closed, ok last_words))
    × (closed.calls
        ≡ checks_context calm ∷ reads_final ∷ accepts_samples ∷ checks_context calm ∷ [])
unfolding finish finish_unfinished look finish_decoder flush hear mark_heard detect clear_residual
    mark_finished return_text last_text conclude ensure_active Incremental.finish new_pcm
    validate_rate process advance count_frame transition is_voiced sum_squares samples_for
finished = (refl, refl)

finish-Fenced_example :
    (row : List Call) × (closed.calls ≡ row ++ ending.calls) × Fenced guarded row
finish-Fenced_example = finish-Fenced fixed counter always ending closed last_words finished.0

abbrev recording : MonoPcm Fixed
recording = record { sample_rate = 16_000; samples = silence 5 }

transcribed :
    (transcribe fixed counter default_stt_limits (new_limiter 2) recording 0 calm calm calm).1
    ≡ ok 5
unfolding transcribe convert_and_recognize recognize ensure_active acquire new_limiter validate_pcm
    admit resample validate_rate
transcribed = refl

transcribe-eq-ok_example :
    ((new_limiter 2).active < (new_limiter 2).maximum)
    × (validate_pcm fixed default_stt_limits.audio recording ≡ ok tt)
    × IsActive calm
    × IsActive calm
    × IsActive calm
transcribe-eq-ok_example =
    transcribe-eq-ok fixed counter default_stt_limits (new_limiter 2) recording 0 calm calm calm 5
      transcribed

start_stream_lem_example :
    ((e : SttError) × (start_stream fixed counter default_stt_limits config
          (new_limiter 2)
          calm
          16_000
        ≡ (new_limiter 2, err e)))
    ⊎ ((s : StreamingSession Fixed ℕ ℕ) × (start_stream fixed counter default_stt_limits config
            (new_limiter 2)
            calm
            16_000
          ≡ (record (new_limiter 2) { active = (new_limiter 2).active + 1 }, ok s))
        × ((new_limiter 2).active < (new_limiter 2).maximum)
        × IsActive calm
        × IsWellformed fixed counter always s)
unfolding new_limiter
start_stream_lem_example =
    start_stream_lem fixed counter always default_stt_limits config (new_limiter 2) calm 16_000
      (omega arith)
