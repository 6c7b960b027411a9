-- ===== src/Artifacts/Verified.antt =====
-- The object that `ensure_artifact` returns for, crates/impossible-voice-artifacts/src/lib.rs.
use impossible_voice.Prelude.{◌≡◌, refl, ap, sym, ◌∙◌, Bool, true, false, Result, ok, err, inl, inr}
use impossible_voice.Prelude.Bytes.{Bytes, ascii, bytes_eq_refl}
use impossible_voice.Prelude.Stateful.{if-eq-ok, >>-eq-ok, ◌>>◌, pure, fail_if, modify}
use impossible_voice.Artifacts.{
  ArtifactError, ArtifactSpec, worker_failed, activation_failed, offline_incomplete,
}
use impossible_voice.Artifacts.World.{
  renamed, FilePath, objects, downloads, staging, recovery, World, Environment, put, path_eq,
  exists_at, call, rename, recover_path,
}
use impossible_voice.Artifacts.Store.{
  abandon, abandon_on_error, or_abandon, extract_verified_archive, check_archive,
  download_if_missing, create_staging, verify_staging, install_from, staging_path, install,
  install_unless, replace_object, keep_object, ensure_artifact, object_path, is_ok, verify_node,
}

pub path_eq_refl : (at : FilePath) → path_eq at at ≡ true
path_eq_refl (objects, name) = bytes_eq_refl name
path_eq_refl (downloads, name) = bytes_eq_refl name
path_eq_refl (staging, name) = bytes_eq_refl name
path_eq_refl (recovery, name) = bytes_eq_refl name

is_ok-eq-ok : (r : Result ArtifactError (Unit {0})) → is_ok r ≡ true → r ≡ ok tt
is_ok-eq-ok (ok x) h = refl
is_ok-eq-ok (err e) h = cc

module _ (environment : Environment) where
  call-nodes :
      (refused : World → Bool) (e : ArtifactError) (s : World) {t : World} {y : Unit {0}}
      → call environment refused e s ≡ (t, ok y)
      → t.nodes ≡ s.nodes
  unfolding call
  call-nodes refused e s p = sym (ap (λ r. r.0.nodes) p)

  -- A rename that succeeds.
  rename-nodes :
      (from to : FilePath) (e : ArtifactError) (s : World) {t : World} {y : Unit {0}}
      → rename environment from to e s ≡ (t, ok y)
      → t.nodes to ≡ s.nodes from
  unfolding rename put
  rename-nodes from to e s {t} p =
      let (s', q, r) =
        >>-eq-ok (call environment (exists_at to) e) (modify (renamed environment from to)) s p in
      let moved : t.nodes to ≡ (renamed environment from to s').nodes to =
        sym (ap (λ r. r.0.nodes to) r) in
      let found : (renamed environment from to s').nodes to ≡ s'.nodes from =
        rw (path_eq_refl to) refl in
      moved ∙ found ∙ ap (λ f. f from) (call-nodes (exists_at to) e s q)

  abandon-ne-ok :
      (at : FilePath) (e : ArtifactError) (s : World) {t : World} {y : Unit {0}}
      → abandon environment at e s ≡ (t, ok y)
      → ⊥
  unfolding abandon
  abandon-ne-ok at e s p =
      let (s', q, r) =
        >>-eq-ok (recover_path environment at (ascii "staging")) (fail_if (λ _. true) e) s p in
      let clash = ap (λ r. r.1) r in cc

  abandon_on_error-eq-ok :
      (at : FilePath) (r : World × Result ArtifactError (Unit {0})) {t : World} {y : Unit {0}}
      → abandon_on_error environment at r ≡ (t, ok y)
      → r ≡ (t, ok y)
  unfolding abandon_on_error
  abandon_on_error-eq-ok at (w, ok done) p = p
  abandon_on_error-eq-ok at (w, err e) p = elim (abandon-ne-ok at e w p) [ ]

  -- The verification of the staging directory.
  verify_staging-eq-ok :
      (artifact : ArtifactSpec) (at : FilePath) (s : World) {t : World} {y : Unit {0}}
      → or_abandon environment at (verify_staging environment artifact at) s ≡ (t, ok y)
      → (verify_node environment artifact (s.nodes at) ≡ ok tt) × (t.nodes ≡ s.nodes)
  unfolding or_abandon verify_staging
  verify_staging-eq-ok artifact at s p =
      let q = abandon_on_error-eq-ok at (verify_staging environment artifact at s) p in
      (ap (λ r. r.1) q, sym (ap (λ r. r.0.nodes) q))

  install_from-verifies :
      (artifact : ArtifactSpec) (at : FilePath) (s : World) {t : World} {state : Bytes}
      → install_from environment artifact at s ≡ (t, ok state)
      → verify_node environment artifact (t.nodes (object_path artifact)) ≡ ok tt
  unfolding install_from
  install_from-verifies artifact at s {t} p =
      let (s1, _, p1) = >>-eq-ok (create_staging environment at) _ s p in
      let (s2, _, p2) = >>-eq-ok (call environment (λ _. false) worker_failed) _ s1 p1 in
      let (s3, _, p3) =
        >>-eq-ok (or_abandon environment at (extract_verified_archive environment artifact at)) _ s2
          p2 in
      let (s4, _, p4) = >>-eq-ok (call environment (λ _. false) worker_failed) _ s3 p3 in
      let (s5, q5, p5) =
        >>-eq-ok (or_abandon environment at (verify_staging environment artifact at)) _ s4 p4 in
      let (s6, q6, p6) =
        >>-eq-ok (rename environment at (object_path artifact) activation_failed)
          (pure (ascii "installed")) s5 p5 in
      let (valid, same) = verify_staging-eq-ok artifact at s4 q5 in
      let there : t.nodes (object_path artifact) ≡ s6.nodes (object_path artifact) =
        sym (ap (λ r. r.0.nodes (object_path artifact)) p6) in
      let kept = rename-nodes at (object_path artifact) activation_failed s5 q6 in
      ap (verify_node environment artifact) (there ∙ kept ∙ ap (λ f. f at) same) ∙ valid

  install_unless-verifies :
      (offline : Bool) (artifact : ArtifactSpec) (s : World) {t : World} {state : Bytes}
      → install_unless environment offline artifact s ≡ (t, ok state)
      → verify_node environment artifact (t.nodes (object_path artifact)) ≡ ok tt
  unfolding install_unless install
  install_unless-verifies offline artifact s p =
      let (s1, _, p1) =
        >>-eq-ok (fail_if (λ _. offline) offline_incomplete) (install environment artifact) s p in
      let (s2, _, p2) = >>-eq-ok (check_archive environment artifact) _ s1 p1 in
      let (s3, _, p3) = >>-eq-ok (download_if_missing environment artifact) _ s2 p2 in
      install_from-verifies artifact (staging_path environment artifact s3) s3 p3

  keep_object-verifies :
      (offline : Bool) (artifact : ArtifactSpec) (s : World) {t : World} {state : Bytes}
      → keep_object environment offline artifact s ≡ (t, ok state)
      → verify_node environment artifact (t.nodes (object_path artifact)) ≡ ok tt
  unfolding keep_object replace_object
  keep_object-verifies offline artifact s p =
      elim (if-eq-ok (is_ok (verify_node environment artifact (s.nodes (object_path artifact))))
        (pure (ascii "verified")) (replace_object environment offline artifact) s p) [
          | inl (e, q) ↦
              ap (λ r. verify_node environment artifact (r.0.nodes (object_path artifact))) (sym q)
              ∙ is_ok-eq-ok _ e
          | inr (_, q) ↦
              let (s1, _, p1) =
                >>-eq-ok (recover_path environment (object_path artifact) (ascii "object"))
                  (install_unless environment offline artifact) s q in
              install_unless-verifies offline artifact s1 p1
        ]

  pub ensure_artifact-verifies :
      (offline : Bool) (artifact : ArtifactSpec) (s : World) {t : World} {state : Bytes}
      → ensure_artifact environment offline artifact s ≡ (t, ok state)
      → verify_node environment artifact (t.nodes (object_path artifact)) ≡ ok tt
  unfolding ensure_artifact
  ensure_artifact-verifies offline artifact s p =
      elim (if-eq-ok (exists_at (object_path artifact) s)
        (call environment (λ _. false) worker_failed >> keep_object environment offline artifact)
        (install_unless environment offline artifact) s p) [
          | inl (_, q) ↦
              let (s1, _, p1) =
                >>-eq-ok (call environment (λ _. false) worker_failed)
                  (keep_object environment offline artifact) s q in
              keep_object-verifies offline artifact s1 p1
          | inr (_, q) ↦ install_unless-verifies offline artifact s q
        ]
