-- ===== src/Server/Http/Fields.antt =====
-- The multipart form of `openai_transcription`, crates/impossible-voice-server/src/voice_api.rs.
use impossible_voice.Prelude.{
  ok_or-eq-ok, ℕ, ◌+◌, ◌≡◌, refl, sym, ap, Bool, true, false, ◌&&◌, ◌||◌, Option, none, some, List,
  [], ◌∷◌, ok, Every, Bool-cases, inl, inr, leb, length, arith, >>=-eq-ok, ok_or, ok_injective,
  if◌then◌else◌,
}
use impossible_voice.Prelude.Bytes.{Bytes, ascii, bytes_eq, eq_of_bytes_eq}
use impossible_voice.Audio.Float.{Floats}
use impossible_voice.Audio.Pcm.{MonoPcm}
use impossible_voice.Server.Http.{
  invalid, FormField, Form, is_some, read_rate, read_field, read_fields, decode_form,
  max_multipart_field_bytes,
}

abbrev pub is_file : FormField → Bool
is_file field = bytes_eq field.name (ascii "file")

-- The number of fields that are named as the file.
abbrev pub count_files : List (Option FormField) → ℕ
count_files [] = 0
count_files (none ∷ items) = count_files items
count_files (some field ∷ items) = (if is_file field then 1 else 0) + count_files items

-- One of the three names.
abbrev pub is_named : FormField → Bool
is_named field =
    is_file field
    || bytes_eq field.name (ascii "sample_rate")
    || bytes_eq field.name (ascii "model")

-- An item that is a field with one of the three names, whose bytes could be read.
abbrev pub IsKnown : Option FormField → Type 0
IsKnown none = ⊥
IsKnown (some field) = (is_named field ≡ true) × (bytes : Bytes) × (field.bytes ≡ some bytes)

abbrev one_if : Bool → ℕ
one_if true = 1
one_if false = 0

abbrev files_in : Form → ℕ
files_in form = one_if (is_some form.file)

second_file :
    (field : FormField) (bytes : Bytes) (form more : Form)
    → field.name ≡ ascii "file"
    → is_some form.file ≡ true
    → read_field field bytes form ≡ ok more
    → ⊥
unfolding read_field
second_file field bytes form more q e p = let clash = rw (q, e, read_field) at p in cc

first_file :
    (field : FormField) (bytes : Bytes) (form more : Form)
    → field.name ≡ ascii "file"
    → is_some form.file ≡ false
    → read_field field bytes form ≡ ok more
    → files_in more ≡ 1
unfolding read_field
first_file field bytes form more q e p =
    let same = ok_injective (rw (q, e, read_field) at p) in ap files_in (sym same)

other_field :
    (field : FormField) (bytes : Bytes) (form more : Form)
    → is_file field ≡ false
    → read_field field bytes form ≡ ok more
    → (is_named field ≡ true) × (files_in more ≡ files_in form)
unfolding read_field
other_field field bytes form more e p =
    elim (Bool-cases (bytes_eq field.name (ascii "sample_rate") && leb (length bytes) 16)) [
      | inl f ↦
          let (rate, _, q) =
            >>=-eq-ok (read_rate bytes) (λ rate. ok (record form { sample_rate = some rate }))
              (rw (e, f, read_field) at p) in
          (ground arith, ap files_in (sym (ok_injective q)))
      | inr f ↦
          elim (Bool-cases
            (bytes_eq field.name (ascii "model") && leb (length bytes) max_multipart_field_bytes)) [
              | inl g ↦
                  (ground arith, ap files_in (sym (ok_injective (rw (e, f, g, read_field) at p))))
              | inr g ↦ let clash = rw (e, f, g, read_field) at p in cc
            ]
    ]

read_fields-eq-ok :
    (items : List (Option FormField)) (form more : Form)
    → read_fields items form ≡ ok more
    → Every IsKnown items × (files_in form + count_files items ≡ files_in more)
unfolding read_fields
read_fields-eq-ok [] form more p = (tt, (let same = ap files_in (ok_injective p) in omega arith))
read_fields-eq-ok (none ∷ items) form more p = cc
read_fields-eq-ok (some field ∷ items) form more p =
    let (bytes, r, p1) =
      >>=-eq-ok (ok_or field.bytes (invalid (ascii "multipart field is malformed"))) _ p in
    let (mid, q, p2) = >>=-eq-ok (read_field field bytes form) _ p1 in
    let (known, counted) = read_fields-eq-ok items mid more p2 in
    let there = ok_or-eq-ok field.bytes (invalid (ascii "multipart field is malformed")) r in
    elim (Bool-cases (is_file field)) [
      | inl e ↦ elim (Bool-cases (is_some form.file)) [
        | inl f ↦
            elim (second_file field bytes form mid (eq_of_bytes_eq field.name (ascii "file") e) f
              q) [ ]
        | inr f ↦
            let one =
              first_file field bytes form mid (eq_of_bytes_eq field.name (ascii "file") e) f q in
            (((rw e refl, bytes, there), known), rw (e, f) (omega arith))
      ]
      | inr e ↦
          let (is_known, same) = other_field field bytes form mid e q in
          (((is_known, bytes, there), known), rw e (omega arith))
    ]

has_file :
    (file : Option (Option Bytes × Bytes)) (found : Option Bytes × Bytes)
    → ok_or file (invalid (ascii "file is required")) ≡ ok found
    → one_if (is_some file) ≡ 1
has_file none found p = cc
has_file (some file) found p = refl

-- A form of which a recording is decoded has exactly one file, and each of its items is a field
-- whose bytes could be read and which is named as the file, the sample rate or the model.
pub decode_form-eq-ok :
    (fl : Floats) (items : List (Option FormField)) (audio : MonoPcm fl.F32)
    → decode_form fl items ≡ ok audio
    → (count_files items ≡ 1) × Every IsKnown items
unfolding decode_form
decode_form-eq-ok fl items audio p =
    let (form, q, p1) =
      >>=-eq-ok (read_fields items (record { file = none; sample_rate = none })) _ p in
    let (file, r, _) = >>=-eq-ok (ok_or form.file (invalid (ascii "file is required"))) _ p1 in
    let (known, counted) =
      read_fields-eq-ok items (record { file = none; sample_rate = none }) form q in
    let one = has_file form.file file r in (omega arith, known)
