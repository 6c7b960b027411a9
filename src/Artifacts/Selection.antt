-- ===== src/Artifacts/Selection.antt =====
-- The checks of `parse_manifest` and `select_artifacts`, crates/impossible-voice-artifacts/src/lib.rs.
use impossible_voice.Prelude.{
  reject_if-eq-ok, subst, ok_injective, ◌≤◌, ◌≡◌, refl, sym, ap, ◌∙◌, Bool, true, false, Option,
  some, List, [], ◌∷◌, ok, Every, Bool-cases, inl, inr, ◌⊎◌, arith, >>=-eq-ok, >>-eq-ok, reject_if,
  ok_or, if◌then◌else◌,
}
use impossible_voice.Prelude.Bytes.{Bytes, bytes_eq, eq_of_bytes_eq, contains_bytes}
use impossible_voice.Artifacts.{
  platform_incomplete, ArtifactSpec, CuratedManifest, Component, manifest_malformed,
  manifest_duplicate,
}
use impossible_voice.Artifacts.Manifest.{
  is_incomplete_profile, runtime, stt_model, tts_model, is_known_kind, validate_artifact,
  validate_artifacts, parse_manifest, for_platform, count_kind, select_artifacts, selection,
  current_platform,
}
use impossible_voice.Artifacts.Profile.{find_kind}

-- No identifier stands twice.
abbrev pub IsDistinct : List ArtifactSpec → Type 0
IsDistinct [] = Unit
IsDistinct (a ∷ as') = Every (λ b. bytes_eq b.id a.id ≡ false) as' × IsDistinct as'

for_platform-Every {ℓ} :
    (P : ArtifactSpec → Type ℓ) (platform : Bytes) (as' : List ArtifactSpec)
    → Every P as'
    → Every P (for_platform platform as')
unfolding for_platform
for_platform-Every P platform [] h = tt
for_platform-Every P platform (a ∷ as') (p, h) =
    elim (Bool-cases (contains_bytes platform a.platforms)) [
      | inl e ↦ rw e (p, for_platform-Every P platform as' h)
      | inr e ↦ rw e (for_platform-Every P platform as' h)
    ]

for_platform-IsDistinct :
    (platform : Bytes) (as' : List ArtifactSpec)
    → IsDistinct as'
    → IsDistinct (for_platform platform as')
unfolding for_platform
for_platform-IsDistinct platform [] h = tt
for_platform-IsDistinct platform (a ∷ as') (p, h) =
    elim (Bool-cases (contains_bytes platform a.platforms)) [
      | inl e ↦ rw e (
        for_platform-Every (λ b. bytes_eq b.id a.id ≡ false) platform as' p,
        for_platform-IsDistinct platform as' h,
      )
      | inr e ↦ rw e (for_platform-IsDistinct platform as' h)
    ]

for_platform-offered :
    (platform : Bytes) (as' : List ArtifactSpec)
    → Every (λ a. contains_bytes platform a.platforms ≡ true) (for_platform platform as')
unfolding for_platform
for_platform-offered platform [] = tt
for_platform-offered platform (a ∷ as') = elim (Bool-cases (contains_bytes platform a.platforms)) [
  | inl e ↦ rw e (e, for_platform-offered platform as')
  | inr e ↦ rw e (for_platform-offered platform as')
]

if-eq-some {ℓ} :
    {A : Type ℓ} (b : Bool) (x : A) (o : Option A) {y : A}
    → (if b then some x else o) ≡ some y
    → ((b ≡ true) × (x ≡ y)) ⊎ ((b ≡ false) × (o ≡ some y))
if-eq-some true x o e = inl (refl, cc)
if-eq-some false x o e = inr (refl, e)

pub find_kind-Every {ℓ} :
    (P : ArtifactSpec → Type ℓ) (kind : Bytes) (as' : List ArtifactSpec) {a : ArtifactSpec}
    → Every P as'
    → find_kind kind as' ≡ some a
    → P a × (a.kind ≡ kind)
unfolding find_kind
find_kind-Every P kind [] h e = cc
find_kind-Every P kind (b ∷ as') (p, h) e =
    elim (if-eq-some (bytes_eq b.kind kind) b (find_kind kind as') e) [
      | inl (q, same) ↦ (subst P same p, ap (λ x. x.kind) (sym same) ∙ eq_of_bytes_eq b.kind kind q)
      | inr (q, later) ↦ find_kind-Every P kind as' h later
    ]

-- Where there is one, the first one is found.
pub count_kind-find :
    (kind : Bytes) (as' : List ArtifactSpec)
    → 1 ≤ count_kind kind as'
    → (a : ArtifactSpec) × (find_kind kind as' ≡ some a)
unfolding find_kind count_kind
count_kind-find kind [] h = elim h [ ]
count_kind-find kind (b ∷ as') h = elim (Bool-cases (bytes_eq b.kind kind)) [
  | inl q ↦ (b, rw q refl)
  | inr q ↦ rw q (count_kind-find kind as' (ground arith))
]

module _ (components : Bytes → List Component) where
  abbrev pub IsValid : ArtifactSpec → Type 0
  IsValid a = validate_artifact components a ≡ ok tt

  without :
      (a : ArtifactSpec) (ids : List Bytes) (as' : List ArtifactSpec)
      → Every (λ b. contains_bytes b.id (a.id ∷ ids) ≡ false) as'
      → Every (λ b. bytes_eq b.id a.id ≡ false) as'
        × Every (λ b. contains_bytes b.id ids ≡ false) as'
  without a ids [] h = (tt, tt)
  without a ids (b ∷ as') (p, h) =
      let (apart, unseen) = without a ids as' h in ((ground arith, apart), (ground arith, unseen))

  validate_artifacts-eq-ok :
      (ids : List Bytes) (as' : List ArtifactSpec)
      → validate_artifacts components ids as' ≡ ok tt
      → Every IsValid as' × IsDistinct as' × Every (λ b. contains_bytes b.id ids ≡ false) as'
  unfolding validate_artifacts
  validate_artifacts-eq-ok ids [] p = (tt, tt, tt)
  validate_artifacts-eq-ok ids (a ∷ as') p =
      let (valid, p1) = >>-eq-ok (validate_artifact components a) _ p in
      let (new, p2) = >>-eq-ok (reject_if (contains_bytes a.id ids) manifest_duplicate) _ p1 in
      let (rest, distinct, others) = validate_artifacts-eq-ok (a.id ∷ ids) as' p2 in
      let (apart, unseen) = without a ids as' others in
      ((valid, rest), (apart, distinct), (ground arith, unseen))

  -- A manifest that is accepted: every entry is valid, and no identifier stands twice.
  pub parse_manifest-IsDistinct :
      (parsed : Option CuratedManifest) (manifest : CuratedManifest)
      → parse_manifest components parsed ≡ ok manifest
      → Every IsValid manifest.artifacts × IsDistinct manifest.artifacts
  unfolding parse_manifest
  parse_manifest-IsDistinct parsed manifest p =
      let (m, _, p1) = >>=-eq-ok (ok_or parsed manifest_malformed) _ p in
      let (_, p2) = >>-eq-ok (reject_if _ _) _ p1 in
      let (valid, p3) = >>-eq-ok (validate_artifacts components [] m.artifacts) _ p2 in
      let (every, distinct, _) = validate_artifacts-eq-ok [] m.artifacts valid in
      subst (λ x. Every IsValid x.artifacts × IsDistinct x.artifacts) (ok_injective p3)
        (every, distinct)

pub complete-count :
    (selected : List ArtifactSpec)
    → is_incomplete_profile selected ≡ false
    → (kind : Bytes) → is_known_kind kind ≡ true
    → count_kind kind selected ≡ 1
complete-count selected p kind known = elim (Bool-cases (bytes_eq kind runtime)) [
  | inl e ↦ rw (eq_of_bytes_eq kind runtime e) (ground arith)
  | inr e ↦ elim (Bool-cases (bytes_eq kind stt_model)) [
    | inl f ↦ rw (eq_of_bytes_eq kind stt_model f) (ground arith)
    | inr f ↦ rw (eq_of_bytes_eq kind tts_model (ground arith)) (ground arith)
  ]
]

pub select_artifacts-eq-ok :
    (manifest : CuratedManifest) (platform : Bytes) (selected : List ArtifactSpec)
    → select_artifacts manifest platform ≡ ok selected
    → (is_incomplete_profile selected ≡ false)
      × (for_platform platform manifest.artifacts ≡ selected)
unfolding select_artifacts
select_artifacts-eq-ok manifest platform selected p =
    let (q, p1) =
      >>-eq-ok
        (reject_if (is_incomplete_profile (for_platform platform manifest.artifacts))
          platform_incomplete)
        (ok (for_platform platform manifest.artifacts)) p in
    (
      subst (λ x. is_incomplete_profile x ≡ false) (ok_injective p1)
          (reject_if-eq-ok _ platform_incomplete q),
      ok_injective p1,
    )

-- A selection that is accepted: for each of the three kinds it has exactly one artifact, which is
-- the one that is found, and which the manifest has for the platform.
pub select_artifacts-find :
    (manifest : CuratedManifest) (platform : Bytes) (selected : List ArtifactSpec)
    → select_artifacts manifest platform ≡ ok selected
    → (kind : Bytes) → is_known_kind kind ≡ true
    → (count_kind kind selected ≡ 1)
      × ((a : ArtifactSpec) × (find_kind kind selected ≡ some a)
          × (a.kind ≡ kind)
          × (contains_bytes platform a.platforms ≡ true))
select_artifacts-find manifest platform selected p kind known =
    let (complete, same) = select_artifacts-eq-ok manifest platform selected p in
    let one = complete-count selected complete kind known in
    let (a, found) = count_kind-find kind selected (omega arith) in
    let offered =
      subst (Every (λ a. contains_bytes platform a.platforms ≡ true)) same
        (for_platform-offered platform manifest.artifacts) in
    let (offers, is_kind) =
      find_kind-Every (λ a. contains_bytes platform a.platforms ≡ true) kind selected offered
        found in
    (one, (a, found, is_kind, offers))

-- What `setup` starts from.
pub selection-eq-ok :
    (components : Bytes → List Component) (parsed : Option CuratedManifest) (os arch : Bytes)
    {manifest : CuratedManifest} {platform : Bytes} {selected : List ArtifactSpec}
    → selection components parsed os arch ≡ ok (manifest, platform, selected)
    → Every (IsValid components) selected
      × IsDistinct selected
      × (is_incomplete_profile selected ≡ false)
unfolding selection
selection-eq-ok components parsed os arch {manifest} {platform} {selected} p =
    let (m, pm, p1) = >>=-eq-ok (parse_manifest components parsed) _ p in
    let (f, pf, p2) = >>=-eq-ok (current_platform os arch) _ p1 in
    let (l, pl, p3) = >>=-eq-ok (select_artifacts m f) _ p2 in
    let (valid, distinct) = parse_manifest-IsDistinct components parsed m pm in
    let (complete, same) = select_artifacts-eq-ok m f l pl in
    let chosen : l ≡ selected = ap (λ r. r.2) (ok_injective p3) in
    subst (λ x. Every (IsValid components) x × IsDistinct x × (is_incomplete_profile x ≡ false))
      (same ∙ chosen)
      (
        for_platform-Every (IsValid components) f m.artifacts valid,
        for_platform-IsDistinct f m.artifacts distinct,
        subst (λ x. is_incomplete_profile x ≡ false) (sym same) complete,
      )
