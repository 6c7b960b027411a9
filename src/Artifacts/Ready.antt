-- ===== src/Artifacts/Ready.antt =====
-- `setup` beside `status` and `verified_profile`, crates/impossible-voice-artifacts/src/lib.rs.
use impossible_voice.Prelude.{
  arith, ◌≡◌, refl, sym, ap, ◌∙◌, subst, Bool, true, Option, none, some, List, [], ◌∷◌, ok, Every,
  ok_injective,
}
use impossible_voice.Prelude.Bytes.{Bytes, ascii}
use impossible_voice.Prelude.Stateful.{>>-eq-ok, continue_with-eq-ok, lift}
use impossible_voice.Artifacts.{ArtifactSpec, CuratedManifest, SetupReport}
use impossible_voice.Artifacts.Manifest.{runtime, stt_model, tts_model, is_known_kind}
use impossible_voice.Artifacts.Installed.{Disk}
use impossible_voice.Artifacts.World.{FilePath, World, Environment, is_some}
use impossible_voice.Artifacts.Store.{
  ensure_all, object_path, verify_node, prepare_storage, setup, selected_for,
}
use impossible_voice.Artifacts.Profile.{
  VerifiedProfile, find_kind, is_ready, status, status_report, verified_kind_path, verified_profile,
}
use impossible_voice.Artifacts.Selection.{
  selection-eq-ok, complete-count, count_kind-find, find_kind-Every,
}
use impossible_voice.Artifacts.Setup.{IsInstalled, ensure_all-verifies}

module _ (environment : Environment) where
  -- What a setup has done when it succeeds.
  setup-installs :
      (offline : Bool) (s : World) {t : World} {report : SetupReport}
      → setup environment offline s ≡ (t, ok report)
      → (manifest : CuratedManifest) × (platform : Bytes) × (selected : List ArtifactSpec)
        × (selected_for environment ≡ ok (manifest, platform, selected))
        × Every (IsInstalled environment t) selected
        × (report.status ≡ ascii "ready")
  unfolding setup
  setup-installs offline s {t} p =
      let (s0, (manifest, platform, selected), p0, q0) =
        continue_with-eq-ok (lift (λ _. selected_for environment) s) _ p in
      let (s1, _, q1) = >>-eq-ok (prepare_storage environment) _ s0 q0 in
      let (s2, results, p2, q2) =
        continue_with-eq-ok (ensure_all environment offline selected s1) _ q1 in
      let chosen : selected_for environment ≡ ok (manifest, platform, selected) =
        ap (λ r. r.1) p0 in
      let (valid, distinct, _) =
        selection-eq-ok environment.components environment.curated environment.os environment.arch
          chosen in
      let installed = ensure_all-verifies environment offline selected s1 valid distinct p2 in
      (
        manifest,
        platform,
        selected,
        chosen,
        subst (λ w. Every (IsInstalled environment w) selected) (ap (λ r. r.0) q2) installed,
        ap (λ x. x.status) (sym (ok_injective (ap (λ r. r.1) q2))),
      )

  kind_path-eq-ok :
      (w : World) (selected : List ArtifactSpec) (kind : Bytes) (a : ArtifactSpec)
      → find_kind kind selected ≡ some a
      → IsInstalled environment w a
      → verified_kind_path environment w selected kind ≡ ok (object_path a)
  unfolding verified_kind_path
  kind_path-eq-ok w selected kind a p q = rw (p, verified_kind_path) (rw q refl)

  verify_node-is_some :
      (a : ArtifactSpec) (o : Option Disk) → verify_node environment a o ≡ ok tt → is_some o ≡ true
  unfolding verify_node
  verify_node-is_some a none p = cc
  verify_node-is_some a (some disk) p = refl

  installed-is_ready :
      (w : World) (selected : List ArtifactSpec)
      → Every (IsInstalled environment w) selected
      → is_ready environment w selected ≡ true
  unfolding is_ready
  installed-is_ready w [] h = refl
  installed-is_ready w (a ∷ selected) (p, h) =
      rw (verify_node-is_some a (w.nodes (object_path a)) p, p) (installed-is_ready w selected h)

  -- The path of a kind that was selected.
  selected-path :
      (w : World) (manifest : CuratedManifest) (platform : Bytes) (selected : List ArtifactSpec)
      (kind : Bytes)
      → selected_for environment ≡ ok (manifest, platform, selected)
      → Every (IsInstalled environment w) selected
      → is_known_kind kind ≡ true
      → (path : FilePath) × (verified_kind_path environment w selected kind ≡ ok path)
  selected-path w manifest platform selected kind chosen installed known =
      let (_, _, complete) =
        selection-eq-ok environment.components environment.curated environment.os environment.arch
          chosen in
      let one = complete-count selected complete kind known in
      let (a, found) = count_kind-find kind selected (omega arith) in
      let (is_installed, _) =
        find_kind-Every (IsInstalled environment w) kind selected installed found in
      (object_path a, kind_path-eq-ok w selected kind a found is_installed)

-- A setup that succeeds, whatever calls of the file system failed on the way, leaves a store in
-- which the verified profile is there: `verified_profile` returns it.
pub setup-verified_profile :
    (environment : Environment) (offline : Bool) (s t : World) (report : SetupReport)
    → setup environment offline s ≡ (t, ok report)
    → (profile : VerifiedProfile) × (verified_profile environment t ≡ ok profile)
unfolding verified_profile
setup-verified_profile environment offline s t report p =
    let (manifest, platform, selected, chosen, installed, _) =
      setup-installs environment offline s p in
    let (r, pr) =
      selected-path environment t manifest platform selected runtime chosen installed refl in
    let (c, pc) =
      selected-path environment t manifest platform selected stt_model chosen installed refl in
    let (v, pv) =
      selected-path environment t manifest platform selected tts_model chosen installed refl in
    (
      record { runtime_path = r; stt_path = c; tts_path = v },
      rw (chosen, verified_profile) (rw pr (rw pc (rw pv refl))),
    )

-- A setup that succeeds reports "ready", and so does `status` on the store that it leaves.
pub setup-status :
    (environment : Environment) (offline : Bool) (s t : World) (report : SetupReport)
    → setup environment offline s ≡ (t, ok report)
    → (report.status ≡ ascii "ready")
      × ((seen : SetupReport) × (status environment t ≡ ok seen) × (seen.status ≡ report.status))
unfolding status status_report
setup-status environment offline s t report p =
    let (manifest, platform, selected, chosen, installed, ready) =
      setup-installs environment offline s p in
    let shown : (status_report environment t (manifest, platform, selected)).status
        ≡ ascii "ready" =
      rw (installed-is_ready environment t selected installed) refl in
    (
      ready,
      (
        status_report environment t (manifest, platform, selected),
        rw (chosen, status) refl,
        shown ∙ sym ready,
      ),
    )
