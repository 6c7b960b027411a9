-- ===== src/Stt/Session.antt =====
-- `StreamingSession`, crates/impossible-voice-stt/src/lib.rs. A method's state is there beside an
-- error too.
use impossible_voice.Prelude.{
  ℕ, ◌+◌, ◌*◌, ◌/◌, Bool, true, false, not, ◌&&◌, ◌||◌, Option, none, some, List, [], ◌∷◌, ◌++◌,
  ltb, if◌then◌else◌, length, take, drop, is_empty, chunks, ok, err, ok_or, map_err,
}
use impossible_voice.Prelude.Stateful.{Stateful, ◌>>=◌, ◌>>◌, pure}
use impossible_voice.Audio.Float.{Floats}
use impossible_voice.Audio.Pcm.{MonoPcm}
use impossible_voice.Audio.Incremental.{IncrementalPcm16, new_incremental}
use impossible_voice.Audio.Resample.{StreamingResampler, new_resampler}
use impossible_voice.Audio.Vad.{VadEvent, EnergyVad, ended, process}
use impossible_voice.Audio.Incremental
use impossible_voice.Audio.Resample
use impossible_voice.Request.{Moment}
use impossible_voice.Stt.{
  SttError, Transcript, Recognizer, vad_frame_samples, ensure_active, invalid_input, audio, interim,
  final,
}

-- A call of the session on its surroundings: of `ensure_active`, with what the context said, and of
-- `accept`, `interim`, `finish` and `open_stream` of the backend.
pub data Call : Type 0 where
  checks_context : Moment → Call
  accepts_samples reads_interim reads_final opens_stream : Call

-- The fields of the source, less the permit, with what the session has asked of its surroundings:
-- the looks at the context and the streams opened, counted, and the calls of its methods, the last
-- one first.
pub record StreamingSession (F Text Stream : Type 0) : Type 0 where
  pub stream : Stream
  pub decoder : IncrementalPcm16 F
  pub resampler : StreamingResampler F
  pub vad : EnergyVad F
  pub max_chunk_bytes : ℕ
  pub residual : List F
  pub last_interim : Text
  pub last_final : Option Text
  pub current_has_audio : Bool
  pub finished : Bool
  pub looks : ℕ
  pub opened : ℕ
  pub calls : List Call

-- `clock n` is what the n-th look at the context sees.
module _ (fl : Floats) (rec : Recognizer fl.F32) (clock : ℕ → Moment) where
  open fl use {F32}
  open rec use {Text, Stream}

  abbrev pub Session : Type 0
  Session = StreamingSession F32 Text Stream

  abbrev pub Method : Type 0 → Type 0
  Method A = Stateful Session SttError A

  unfoldable pub look : Method (Unit {0})
  look s = (
    record s { looks = s.looks + 1; calls = checks_context (clock s.looks) ∷ s.calls },
    ensure_active (clock s.looks),
  )

  unfoldable pub hear : List F32 → Method (Unit {0})
  hear samples s =
      let (stream, result) = rec.accept s.stream samples in
      (record s { stream = stream; calls = accepts_samples ∷ s.calls }, result)

  unfoldable pub peek : Method Text
  peek s = (record s { calls = reads_interim ∷ s.calls }, rec.read_interim s.stream)

  unfoldable pub conclude : Method Text
  conclude s =
      let (stream, result) = rec.read_final s.stream in
      (record s { stream = stream; calls = reads_final ∷ s.calls }, result)

  unfoldable pub reopen : Method (Unit {0})
  reopen s = elim (rec.open_stream s.opened) [
    | ok stream ↦
        (record s { stream = stream; opened = s.opened + 1; calls = opens_stream ∷ s.calls }, ok tt)
    | err e ↦ (record s { opened = s.opened + 1; calls = opens_stream ∷ s.calls }, err e)
  ]

  unfoldable pub decode : List ℕ → Method (List F32)
  decode bytes s = elim (Incremental.push fl s.decoder bytes) [
    | ok (decoder, decoded) ↦ (record s { decoder = decoder }, ok decoded)
    | err e ↦ (s, err audio)
  ]

  unfoldable pub convert : List F32 → Method (List F32)
  convert decoded s =
      let (resampler, result) = Resample.push fl s.resampler decoded in
      (record s { resampler = resampler }, map_err (λ e. audio) result)

  unfoldable pub detect : List F32 → Method VadEvent
  detect frame s = elim (process fl s.vad frame) [
    | ok (vad, event) ↦ (record s { vad = vad }, ok event)
    | err e ↦ (s, err audio)
  ]

  -- An interim text that is not empty and not the last one is announced.
  unfoldable pub announce : Text → Method (List (Transcript Text))
  announce text s =
      if not (rec.text_is_empty text) && not (rec.text_eq text s.last_interim)
      then (record s { last_interim = text }, ok (record { kind = interim; text = text } ∷ []))
      else (s, ok [])

  abbrev pub final_update : Text → Transcript Text
  final_update text = record { kind = final; text = text }

  unfoldable pub record_final : Text → Method (Unit {0})
  record_final text s = (record s { last_final = some text }, ok tt)

  unfoldable pub clear_utterance : Method (Unit {0})
  clear_utterance s = (record s { current_has_audio = false; last_interim = rec.no_text }, ok tt)

  unfoldable pub mark_heard : Method (Unit {0})
  mark_heard s = (record s { current_has_audio = true }, ok tt)

  -- Behind the text of an utterance: the update, and a fresh stream.
  unfoldable pub restart : Text → Method (List (Transcript Text))
  unfolding reopen clear_utterance
  restart text = do reopen; clear_utterance; pure (final_update text ∷ [])

  unfoldable pub publish : Text → Method (List (Transcript Text))
  unfolding look record_final restart
  publish text = do look; record_final text; restart text

  unfoldable pub end_utterance : Method (List (Transcript Text))
  unfolding conclude publish
  end_utterance = do text ← conclude; publish text

  unfoldable pub report : VadEvent → Method (List (Transcript Text))
  unfolding end_utterance peek announce
  report ended = end_utterance
  report _ = do text ← peek; announce text

  -- The body of the loop over the frames: the updates that it pushes.
  unfoldable pub frame_step : List F32 → Method (List (Transcript Text))
  unfolding look hear mark_heard detect report
  frame_step frame = do look; hear frame; mark_heard; transition ← detect frame; report transition

  unfoldable pub frame_loop : List (List F32) → Method (List (Transcript Text))
  unfolding frame_step
  frame_loop [] = pure []
  frame_loop (frame ∷ frames) = do
    updates ← frame_step frame
    rest ← frame_loop frames
    pure (updates ++ rest)

  -- The complete frames are taken out of the samples at hand.
  unfoldable pub drain_frames : List F32 → Method (List (List F32))
  drain_frames converted s =
      let samples = s.residual ++ converted in
      let complete = (length samples / vad_frame_samples) * vad_frame_samples in
      (
        record s { residual = drop complete samples },
        ok (chunks vad_frame_samples (take complete samples)),
      )

  -- The loop over the frames, and the look behind it.
  unfoldable pub push_frames : List (List F32) → Method (List (Transcript Text))
  unfolding frame_loop look
  push_frames frames = do updates ← frame_loop frames; look; pure updates

  unfoldable pub push_converted : List F32 → Method (List (Transcript Text))
  unfolding drain_frames push_frames
  push_converted converted = do frames ← drain_frames converted; push_frames frames

  unfoldable pub push_decoded : List F32 → Method (List (Transcript Text))
  unfolding convert push_converted
  push_decoded decoded =
      if is_empty decoded
      then pure []
      else (do converted ← convert decoded; push_converted converted)

  unfoldable pub push_pcm16 : List ℕ → Method (List (Transcript Text))
  unfolding look decode push_decoded
  push_pcm16 bytes s =
      if s.finished || is_empty bytes || ltb s.max_chunk_bytes (length bytes)
      then (s, err invalid_input)
      else (do look; decoded ← decode bytes; push_decoded decoded) s

  unfoldable pub clear_residual : Method (Unit {0})
  clear_residual s = (record s { residual = [] }, ok tt)

  -- What `finish` does with the samples that fill no frame.
  unfoldable pub flush : Method (Unit {0})
  unfolding hear mark_heard detect clear_residual
  flush s =
      if is_empty s.residual
      then (s, ok tt)
      else (do hear s.residual; mark_heard; transition ← detect s.residual; clear_residual) s

  unfoldable pub last_text : Method Text
  unfolding conclude
  last_text s =
      if s.current_has_audio
      then conclude s
      else (record s { last_final = none }, ok_or s.last_final audio)

  -- The check of the decoder, which is given up by it.
  unfoldable pub finish_decoder : Method (MonoPcm F32)
  finish_decoder s = (s, map_err (λ e. audio) (Incremental.finish fl s.decoder))

  unfoldable pub mark_finished : Method (Unit {0})
  mark_finished s = (record s { finished = true }, ok tt)

  unfoldable pub return_text : Method (Transcript Text)
  unfolding look last_text
  return_text = do text ← last_text; look; pure (final_update text)

  unfoldable pub finish_unfinished : Method (Transcript Text)
  unfolding look finish_decoder flush mark_finished return_text
  finish_unfinished = do look; recording ← finish_decoder; flush; mark_finished; return_text

  unfoldable pub finish : Method (Transcript Text)
  unfolding finish_unfinished
  finish s = if s.finished then (s, err invalid_input) else finish_unfinished s
