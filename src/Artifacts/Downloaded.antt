-- ===== src/Artifacts/Downloaded.antt =====
-- What `download` puts in place, crates/impossible-voice-artifacts/src/lib.rs.
use impossible_voice.Prelude.{
  ok_injective, ℕ, ◌+◌, ◌^◌, ◌≡◌, refl, sym, ap, ◌∙◌, Bool, true, false, not, Option, none, some,
  List, [], ◌∷◌, ◌++◌, ok, arith, length, length-append, ltb, inl, inr, ok_or,
}
use impossible_voice.Prelude.Bytes.{Bytes}
use impossible_voice.Prelude.Stateful.{
  >>-eq-ok, if-eq-ok, continue_with-eq-ok, ◌>>◌, pure, fail_if, modify, lift,
}
use impossible_voice.Artifacts.{
  ArtifactError, ArtifactSpec, url_invalid, origin_forbidden, download_bound, download_staging,
  download_integrity, download_size, archive_activation,
}
use impossible_voice.Artifacts.Installed.{verify_archive_file}
use impossible_voice.Artifacts.World.{FilePath, World, Environment, put, call, plain_file}
use impossible_voice.Artifacts.Download.{
  append_to_first, first_file, is_other_size, is_permitted_origin, store_chunk, receive,
  recover_partial, is_damaged, check_integrity, activated, opened, finish_download, save_response,
  request, download,
}
use impossible_voice.Artifacts.Store.{verify_archive_node}
use impossible_voice.Artifacts.Verified.{path_eq_refl}

module _ (environment : Environment) where
  call-partials :
      (refused : World → Bool) (e : ArtifactError) (s : World) {t : World} {y : Unit {0}}
      → call environment refused e s ≡ (t, ok y)
      → t.partials ≡ s.partials
  unfolding call
  call-partials refused e s p = sym (ap (λ r. r.0.partials) p)

  store_chunk-partials :
      (limit counted : ℕ) (chunk : Bytes) (s : World) {t : World} {y : Unit {0}}
      → store_chunk environment limit counted chunk s ≡ (t, ok y)
      → t.partials ≡ append_to_first chunk s.partials
  unfolding store_chunk
  store_chunk-partials limit counted chunk s p =
      let (s1, q1, p1) =
        >>-eq-ok (fail_if (λ _. not (ltb counted (2 ^ 64))) download_bound) _ s p in
      let (s2, q2, p2) = >>-eq-ok (fail_if (λ _. ltb limit counted) download_bound) _ s1 p1 in
      let (s3, q3, p3) =
        >>-eq-ok (call environment (λ _. false) download_staging)
          (modify (λ w. record w { partials = append_to_first chunk w.partials })) s2 p2 in
      sym (ap (λ r. r.0.partials) p3)
      ∙ ap (append_to_first chunk) (
          call-partials (λ _. false) download_staging s2 q3
          ∙ sym (ap (λ r. r.0.partials) q2)
          ∙ sym (ap (λ r. r.0.partials) q1))

  -- What was written is what was hashed, and its size is what was counted.
  receive-eq-ok :
      (limit : ℕ) (stream : List (Option Bytes)) (size : ℕ) (hashed : Bytes) (rest : List Bytes)
      (s : World) {t : World} {r : ℕ × Bytes}
      → s.partials ≡ hashed ∷ rest
      → size ≡ length hashed
      → receive environment limit stream size hashed s ≡ (t, ok r)
      → (t.partials ≡ r.1 ∷ rest) × (r.0 ≡ length r.1)
  unfolding receive append_to_first
  receive-eq-ok limit [] size hashed rest s {t} {r} e f p =
      let same : (size, hashed) ≡ r = ok_injective (ap (λ x. x.1) p) in
      (
        sym (ap (λ x. x.0.partials) p) ∙ e ∙ ap (λ x. x.1 ∷ rest) same,
        sym (ap (λ x. x.0) same) ∙ f ∙ ap (λ x. length x.1) same,
      )
  receive-eq-ok limit (none ∷ stream) size hashed rest s e f p = let clash = ap (λ x. x.1) p in cc
  receive-eq-ok limit (some chunk ∷ stream) size hashed rest s e f p =
      let (s1, q1, p1) =
        >>-eq-ok (store_chunk environment limit (size + length chunk) chunk)
          (receive environment limit stream (size + length chunk) (hashed ++ chunk)) s p in
      let grown = length-append hashed chunk in
      receive-eq-ok limit stream (size + length chunk) (hashed ++ chunk) rest s1
        (store_chunk-partials limit (size + length chunk) chunk s q1 ∙ ap (append_to_first chunk) e)
        (omega arith) p1

  plain_file-valid :
      (artifact : ArtifactSpec) (bytes : Bytes)
      → is_damaged environment artifact (length bytes, bytes) ≡ false
      → verify_archive_node environment artifact (some (plain_file bytes)) ≡ ok tt
  unfolding verify_archive_node is_damaged verify_archive_file
  plain_file-valid artifact bytes p = ground arith

  check_integrity-eq-ok :
      (artifact : ArtifactSpec) (r : ℕ × Bytes) (s : World) {t : World} {y : Unit {0}}
      → check_integrity environment artifact r s ≡ (t, ok y)
      → (is_damaged environment artifact r ≡ false) × (t.partials ≡ s.partials)
  unfolding check_integrity
  check_integrity-eq-ok artifact r s p =
      elim (if-eq-ok (is_damaged environment artifact r)
        (recover_partial environment >> fail_if (λ _. true) download_integrity) (pure tt) s p) [
          | inl (_, q) ↦
              let (s1, _, q1) =
                >>-eq-ok (recover_partial environment) (fail_if (λ _. true) download_integrity) s
                  q in
              let clash = ap (λ x. x.1) q1 in cc
          | inr (e, q) ↦ (e, sym (ap (λ x. x.0.partials) q))
        ]

  finish_download-eq-ok :
      (artifact : ArtifactSpec) (archive : FilePath) (r : ℕ × Bytes) (rest : List Bytes) (s : World)
      {t : World} {y : Unit {0}}
      → s.partials ≡ r.1 ∷ rest
      → r.0 ≡ length r.1
      → finish_download environment artifact archive r s ≡ (t, ok y)
      → verify_archive_node environment artifact (t.nodes archive) ≡ ok tt
  unfolding finish_download put
  finish_download-eq-ok artifact archive r rest s {t} e f p =
      let (s1, q1, p1) = >>-eq-ok (call environment (λ _. false) download_staging) _ s p in
      let (s2, q2, p2) = >>-eq-ok (check_integrity environment artifact r) _ s1 p1 in
      let (s3, q3, p3) =
        >>-eq-ok (call environment (λ _. false) archive_activation)
          (modify (activated environment archive)) s2 p2 in
      let (sound, kept) = check_integrity-eq-ok artifact r s1 q2 in
      let written : first_file s3.partials ≡ r.1 = ap first_file (
        call-partials (λ _. false) archive_activation s2 q3
        ∙ kept
        ∙ call-partials (λ _. false) download_staging s q1
        ∙ e) in
      let found : (activated environment archive s3).nodes archive
          ≡ some (plain_file (first_file s3.partials)) =
        rw (path_eq_refl archive) refl in
      let there : t.nodes archive ≡ some (plain_file r.1) =
        sym (ap (λ x. x.0.nodes archive) p3) ∙ found ∙ ap (λ b. some (plain_file b)) written in
      ap (verify_archive_node environment artifact) there
      ∙ plain_file-valid artifact r.1
          (ap (λ n. is_damaged environment artifact (n, r.1)) (sym f) ∙ sound)

-- A download that succeeds leaves at the archive's place a file that the verification of archives
-- accepts: of the artifact's size, and with its digest.
pub download-valid :
    (environment : Environment) (artifact : ArtifactSpec) (archive : FilePath) (s t : World)
    → download environment artifact archive s ≡ (t, ok tt)
    → verify_archive_node environment artifact (t.nodes archive) ≡ ok tt
unfolding download save_response
download-valid environment artifact archive s t p =
    let (s1, url, q1, p1) =
      continue_with-eq-ok (lift (λ _. ok_or (environment.parse_url artifact.url) url_invalid) s) _
        p in
    let (s2, q2, p2) =
      >>-eq-ok (fail_if (λ _. not (is_permitted_origin url)) origin_forbidden) _ s1 p1 in
    let (s3, response, q3, p3) = continue_with-eq-ok (request environment artifact s2) _ p2 in
    let (s4, q4, p4) =
      >>-eq-ok (fail_if (λ _. is_other_size artifact.size response.content_length) download_size) _
        s3 p3 in
    let (s5, q5, p5) = >>-eq-ok (call environment (λ _. false) download_staging) _ s4 p4 in
    let (s6, r, q6, p6) =
      continue_with-eq-ok
        (receive environment artifact.size response.stream 0 [] (opened environment s5))
        (finish_download environment artifact archive) p5 in
    let (written, counted) =
      receive-eq-ok environment artifact.size response.stream 0 [] s5.partials
        (opened environment s5) refl refl q6 in
    finish_download-eq-ok environment artifact archive r s5.partials s6 written counted p6
