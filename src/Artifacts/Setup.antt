-- ===== src/Artifacts/Setup.antt =====
-- The loop of `setup` over the artifacts, crates/impossible-voice-artifacts/src/lib.rs.
use impossible_voice.Prelude.{
  zero, ◌<◌, suc, ◌≤◌, ap₂, ℕ, ◌≡◌, refl, sym, ap, ◌∙◌, subst, Bool, true, false, Option, List, [],
  ◌∷◌, ◌++◌, ok, Every, arith, length, length-append, take, >>-eq-ok, reject_if, reject_if-eq-ok,
  Bool-cases, inl, inr,
}
use impossible_voice.Prelude.Bytes.{Bytes, bytes_eq, eq_of_bytes_eq, bytes_eq_refl}
use impossible_voice.Prelude.Stateful.{Keeps, bind-Keeps, continue_with-eq-ok, pure}
use impossible_voice.Artifacts.{ArtifactResult, ArtifactSpec, Component, manifest_entry}
use impossible_voice.Artifacts.Manifest.{is_invalid_entry, validate_artifact}
use impossible_voice.Artifacts.Installed.{Disk}
use impossible_voice.Artifacts.World.{objects, World, Environment, path_eq}
use impossible_voice.Artifacts.Store.{
  ensure_artifact, object_path, verify_node, ensure_all, artifact_result,
}
use impossible_voice.Artifacts.Frame.{Holds}
use impossible_voice.Artifacts.Unchanged.{ensure_artifact-Holds}
use impossible_voice.Artifacts.Verified.{ensure_artifact-verifies}
use impossible_voice.Artifacts.Selection.{IsValid, IsDistinct}

-- The digest has all its digits.
validate_artifact-length :
    (components : Bytes → List Component) (a : ArtifactSpec)
    → validate_artifact components a ≡ ok tt
    → length a.sha256 ≡ 64
unfolding validate_artifact is_invalid_entry
validate_artifact-length components a p =
    let (q, _) = >>-eq-ok (reject_if (is_invalid_entry a) manifest_entry) _ p in
    let valid = reject_if-eq-ok (is_invalid_entry a) manifest_entry q in ground arith

lt_irrefl_of : (n : ℕ) → n < n → ⊥
lt_irrefl_of n h = omega arith

same_stem : (b : ℕ) (x y u v : Bytes) → length u ≡ length v → x ++ (b ∷ u) ≡ y ++ (b ∷ v) → x ≡ y
same_stem b [] [] u v h p = refl
same_stem b [] (y ∷ ys) u v h p =
    let n = ap length p in
    let k = length-append ys (b ∷ v) in elim (lt_irrefl_of (length v) (omega arith)) [ ]
same_stem b (x ∷ xs) [] u v h p =
    let n = ap length p in
    let k = length-append xs (b ∷ u) in elim (lt_irrefl_of (length v) (omega arith)) [ ]
same_stem b (x ∷ xs) (y ∷ ys) u v h p =
    let (head, tail) : (x ≡ y) × (xs ++ (b ∷ u) ≡ ys ++ (b ∷ v)) = (cc, cc) in
    ap₂ ◌∷◌ head (same_stem b xs ys u v h tail)

length-take : (n : ℕ) (xs : Bytes) → n ≤ length xs → length (take n xs) ≡ n
length-take zero xs h = refl
length-take (suc n) [] h = omega arith
length-take (suc n) (x ∷ xs) h = ap suc (length-take n xs (omega arith))

-- Different identifiers, different objects.
object_path-apart :
    (components : Bytes → List Component) (a b : ArtifactSpec)
    → IsValid components a
    → IsValid components b
    → bytes_eq b.id a.id ≡ false
    → path_eq (object_path b) (object_path a) ≡ false
unfolding object_path
object_path-apart components a b va vb p =
    elim (Bool-cases (path_eq (object_path b) (object_path a))) [
      | inr e ↦ e
      | inl e ↦
          let la = validate_artifact-length components a va in
          let lb = validate_artifact-length components b vb in
          let ta = length-take 16 a.sha256 (omega arith) in
          let tb = length-take 16 b.sha256 (omega arith) in
          let same =
            same_stem 45 b.id a.id (take 16 b.sha256) (take 16 a.sha256) (tb ∙ sym ta)
              (eq_of_bytes_eq _ _ e) in
          let clash : bytes_eq b.id a.id ≡ true = rw same (bytes_eq_refl a.id) in cc
    ]

module _ (environment : Environment) where
  abbrev pub IsInstalled : World → ArtifactSpec → Type 0
  IsInstalled w a = verify_node environment a (w.nodes (object_path a)) ≡ ok tt

  ensure_all-Holds :
      (name : Bytes) (shown : Option Disk) (offline : Bool) (selected : List ArtifactSpec)
      → Every (λ b. path_eq (object_path b) (objects, name) ≡ false) selected
      → Keeps (Holds environment name shown) (ensure_all environment offline selected)
  unfolding ensure_all
  ensure_all-Holds name shown offline [] apart s h = h
  ensure_all-Holds name shown offline (a ∷ selected) (p, apart) s h =
      bind-Keeps (Holds environment name shown) (ensure_artifact environment offline a) _
        (ensure_artifact-Holds environment name shown offline a p)
        (λ state.
          bind-Keeps (Holds environment name shown) (ensure_all environment offline selected)
            (λ results. pure (artifact_result a state ∷ results))
            (ensure_all-Holds name shown offline selected apart) (λ _ s h. h))
        s h

  apart_from :
      (a : ArtifactSpec) (selected : List ArtifactSpec)
      → IsValid environment.components a
      → Every (IsValid environment.components) selected
      → Every (λ b. bytes_eq b.id a.id ≡ false) selected
      → Every (λ b. path_eq (object_path b) (object_path a) ≡ false) selected
  apart_from a [] va valid apart = tt
  apart_from a (b ∷ selected) va (vb, valid) (p, apart) =
      (object_path-apart environment.components a b va vb p, apart_from a selected va valid apart)

  pub ensure_all-verifies :
      (offline : Bool) (selected : List ArtifactSpec) (s : World) {t : World}
      {results : List ArtifactResult}
      → Every (IsValid environment.components) selected
      → IsDistinct selected
      → ensure_all environment offline selected s ≡ (t, ok results)
      → Every (IsInstalled t) selected
  unfolding ensure_all object_path
  ensure_all-verifies offline [] s {t} valid distinct p = tt
  ensure_all-verifies offline (a ∷ selected) s {t} (va, valid) (apart, distinct) p =
      let (s1, state, p1, q1) = continue_with-eq-ok (ensure_artifact environment offline a s) _ p in
      let (s2, results, p2, q2) =
        continue_with-eq-ok (ensure_all environment offline selected s1) _ q1 in
      let others = apart_from a selected va valid apart in
      let kept =
        ensure_all-Holds (object_path a).1 (s1.nodes (object_path a)) offline selected others s1
          refl in
      let there : t.nodes (object_path a) ≡ s1.nodes (object_path a) =
        sym (ap (λ r. r.0.nodes (object_path a)) q2)
        ∙ sym (ap (λ r. r.0.nodes (object_path a)) p2)
        ∙ kept in
      (
        ap (verify_node environment a) there ∙ ensure_artifact-verifies environment offline a s p1,
        subst (λ w. Every (IsInstalled w) selected) (ap (λ r. r.0) q2)
            (ensure_all-verifies offline selected s1 valid distinct p2),
      )
