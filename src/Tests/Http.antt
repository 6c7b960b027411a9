-- ===== src/Tests/Http.antt =====
-- A form of `openai_transcription`, crates/impossible-voice-server/src/voice_api.rs.
use impossible_voice.Prelude.{false, ◌≡◌, refl, none, some, Option, List, [], ◌∷◌, ok, Every}
use impossible_voice.Prelude.Bytes.{ascii}
use impossible_voice.Audio.Admission.{validate_rate, admit}
use impossible_voice.Audio.Fixed.{Fixed, fixed}
use impossible_voice.Audio.Pcm.{MonoPcm, new_pcm, decode_pairs}
use impossible_voice.Server.Http.{FormField, decode_form}
use impossible_voice.Server.Http.Fields.{count_files, IsKnown, decode_form-eq-ok}

abbrev form : List (Option FormField)
form =
    some (record { name = ascii "sample_rate"; content_type = none; bytes = some (ascii "16000") })
    ∷ some (record {
      name = ascii "file";
      content_type = some (ascii "audio/pcm");
      bytes = some (0 ∷ 0 ∷ []);
    })
    ∷ some (record { name = ascii "model"; content_type = none; bytes = some [] })
    ∷ []

abbrev silence : MonoPcm Fixed
silence = record { sample_rate = 16_000; samples = record { negative = false; magnitude = 0 } ∷ [] }

decoded : decode_form fixed form ≡ ok silence
unfolding decode_form validate_rate admit new_pcm decode_pairs
decoded = refl

decode_form-eq-ok_example : (count_files form ≡ 1) × Every IsKnown form
decode_form-eq-ok_example = decode_form-eq-ok fixed form silence decoded
