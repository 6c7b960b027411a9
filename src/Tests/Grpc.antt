-- ===== src/Tests/Grpc.antt =====
-- Calls of crates/impossible-voice-server/src/grpc.rs, with a recognizer that counts bytes.
use impossible_voice.Prelude.{
  ℕ, ◌+◌, ◌≤◌, ◌<◌, ◌≡◌, ◌⊎◌, refl, Bool, true, false, Option, some, List, [], ◌∷◌, ok, err, length,
  concat, Pieces, arith,
}
use impossible_voice.Audio.Fixed.{Fixed, fixed}
use impossible_voice.Audio.Pcm.{MonoPcm}
use impossible_voice.Stt.{final, interim}
use impossible_voice.Server.{engine}
use impossible_voice.Server.Grpc.{
  Status, invalid_argument, resource_exhausted, VoiceBackend, TranscribeRequest, decode_audio,
  max_grpc_message_bytes, grpc_chunk_bytes,
}
use impossible_voice.Server.Grpc.Speech.{stream_chunks}
use impossible_voice.Server.Grpc.Transcribe.{
  Event, config, audio, commit, ended, stream_transcribe, new_call,
}
use impossible_voice.Server.Grpc.Told.{
  IsTerminated, EndsTold, stream_transcribe-IsTerminated, stream_transcribe-EndsTold,
}
use impossible_voice.Server.Grpc.Chunked.{payloads, IsNumbered, stream_chunks-IsNumbered}
use impossible_voice.Server.Grpc.Rejected.{decode_audio-code}

abbrev backend : VoiceBackend fixed
backend = record {
  Text = ℕ;
  Transcriber = ℕ;
  transcribe = λ pcm. ok (length pcm.samples);
  synthesize = λ text speed. err engine;
  start_transcription = λ rate. ok 0;
  push_pcm16 =
      λ n bytes. (n + length bytes, ok (record { kind = interim; text = n + length bytes } ∷ []));
  finish = λ n. ok (record { kind = final; text = n });
}

abbrev messages : List (Option Event)
messages = some (config 16_000) ∷ some (audio (1 ∷ 2 ∷ [])) ∷ some (commit true) ∷ []

abbrev takes_all : ℕ → Bool
takes_all n = true

-- The interim text, and the final one.
heard :
    (stream_transcribe fixed backend takes_all messages ended
      (new_call fixed backend takes_all)).sent
    ≡ ok (record { text = 2; is_final = false }) ∷ ok (record { text = 2; is_final = true }) ∷ []
unfolding stream_transcribe
heard = refl

stream_transcribe-IsTerminated_example :
    IsTerminated
      (stream_transcribe fixed backend takes_all messages ended
        (new_call fixed backend takes_all)).sent
stream_transcribe-IsTerminated_example =
    stream_transcribe-IsTerminated fixed backend takes_all messages ended

not_cancelled :
    (stream_transcribe fixed backend takes_all messages ended
      (new_call fixed backend takes_all)).is_cancelled
    ≡ false
unfolding stream_transcribe
not_cancelled = refl

stream_transcribe-EndsTold_example :
    EndsTold
      (stream_transcribe fixed backend takes_all messages ended
        (new_call fixed backend takes_all)).sent
stream_transcribe-EndsTold_example =
    stream_transcribe-EndsTold fixed backend takes_all messages ended (λ n. refl) not_cancelled

stream_chunks-IsNumbered_example :
    (concat (payloads (stream_chunks takes_all 22_050 (1 ∷ 2 ∷ []))) ≡ 1 ∷ 2 ∷ [])
    × Pieces grpc_chunk_bytes (payloads (stream_chunks takes_all 22_050 (1 ∷ 2 ∷ [])))
    × IsNumbered 0 (stream_chunks takes_all 22_050 (1 ∷ 2 ∷ []))
stream_chunks-IsNumbered_example =
    stream_chunks-IsNumbered takes_all 22_050 (1 ∷ 2 ∷ []) (λ n. refl) (omega arith)

abbrev request : TranscribeRequest
request = record { audio = 0 ∷ 1 ∷ []; encoding = 2; sample_rate = 0 }

decode_audio-code_example :
    ((pcm : MonoPcm Fixed) → decode_audio fixed request ≡ ok pcm → 2 ≤ max_grpc_message_bytes)
    × ((failure : Status)
        → decode_audio fixed request ≡ err failure
        → ((max_grpc_message_bytes < 2) × (failure.code ≡ resource_exhausted))
          ⊎ ((2 ≤ max_grpc_message_bytes) × (failure.code ≡ invalid_argument)))
decode_audio-code_example = decode_audio-code fixed request
