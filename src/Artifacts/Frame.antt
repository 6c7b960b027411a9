-- ===== src/Artifacts/Frame.antt =====
-- The other objects during a download and a recovery, crates/impossible-voice-artifacts/src/lib.rs.
use impossible_voice.Prelude.{
  not, ltb, ◌^◌, ok_or, ℕ, length, ◌+◌, ◌++◌, ◌≡◌, refl, Bool, true, false, Option, none, some,
  List, [], ◌∷◌, Bool-cases, inl, inr,
}
use impossible_voice.Prelude.Bytes.{Bytes, ascii}
use impossible_voice.Prelude.Stateful.{
  Keeps, bind-Keeps, if-Keeps, then-Keeps, fail_if, modify, lift,
}
use impossible_voice.Artifacts.{
  ArtifactError, ArtifactSpec, unpreserved, recovery_failed, download_staging, download_bound,
  download_size, download_integrity, archive_activation, url_invalid, origin_forbidden,
}
use impossible_voice.Artifacts.Installed.{Disk}
use impossible_voice.Artifacts.Download.{
  append_to_first, store_chunk, is_other_size, receive, move_partial, recover_partial,
  check_integrity, is_damaged, activated, opened, finish_download, request, is_permitted_origin,
  save_response, download,
}
use impossible_voice.Artifacts.World.{
  FilePath, objects, World, Environment, put, path_eq, Response, exists_at, call, rename,
  recover_path, move_away, recovery_path,
}

module _ (environment : Environment) (name : Bytes) (shown : Option Disk) where
  -- The object of that name.
  abbrev pub Holds : World → Type 0
  Holds w = w.nodes (objects, name) ≡ shown

  pub rename-Holds :
      (from to : FilePath) (e : ArtifactError)
      → path_eq from (objects, name) ≡ false
      → path_eq to (objects, name) ≡ false
      → Keeps Holds (rename environment from to e)
  unfolding rename call put
  rename-Holds from to e p q =
      then-Keeps Holds (call environment (exists_at to) e) _ (λ s h. h) (λ s h. rw (q, p) h)

  pub move_away-Holds :
      (from : FilePath) (label : Bytes)
      → path_eq from (objects, name) ≡ false
      → Keeps Holds (move_away environment from label)
  unfolding move_away call recovery_path
  move_away-Holds from label p =
      then-Keeps Holds (call environment (λ _. false) recovery_failed) _ (λ s h. h)
        (λ s h. rename-Holds from (recovery_path environment label s) unpreserved p refl s h)

  pub recover_path-Holds :
      (from : FilePath) (label : Bytes)
      → path_eq from (objects, name) ≡ false
      → Keeps Holds (recover_path environment from label)
  unfolding recover_path
  recover_path-Holds from label p s h = elim (Bool-cases (exists_at from s)) [
    | inl e ↦ rw e (move_away-Holds from label p s h)
    | inr e ↦ rw e h
  ]

  pub call-Holds :
      (refused : World → Bool) (e : ArtifactError) → Keeps Holds (call environment refused e)
  unfolding call
  call-Holds refused e s h = h

  store_chunk-Holds :
      (limit counted : ℕ) (chunk : Bytes)
      → Keeps Holds (store_chunk environment limit counted chunk)
  unfolding store_chunk call
  store_chunk-Holds limit counted chunk =
      then-Keeps Holds (fail_if (λ _. not (ltb counted (2 ^ 64))) download_bound) _ (λ s h. h)
        (then-Keeps Holds (fail_if (λ _. ltb limit counted) download_bound) _ (λ s h. h)
          (then-Keeps Holds (call environment (λ _. false) download_staging)
            (modify (λ w. record w { partials = append_to_first chunk w.partials })) (λ s h. h)
            (λ s h. h)))

  receive-Holds :
      (limit : ℕ) (stream : List (Option Bytes)) (size : ℕ) (hashed : Bytes)
      → Keeps Holds (receive environment limit stream size hashed)
  unfolding receive
  receive-Holds limit [] size hashed s h = h
  receive-Holds limit (none ∷ stream) size hashed s h = h
  receive-Holds limit (some chunk ∷ stream) size hashed s h =
      then-Keeps Holds (store_chunk environment limit (size + length chunk) chunk)
        (receive environment limit stream (size + length chunk) (hashed ++ chunk))
        (store_chunk-Holds limit (size + length chunk) chunk)
        (receive-Holds limit stream (size + length chunk) (hashed ++ chunk)) s h

  recover_partial-Holds : Keeps Holds (recover_partial environment)
  unfolding recover_partial move_partial recovery_path call put
  recover_partial-Holds =
      then-Keeps Holds (call environment (λ _. false) recovery_failed) _ (λ s h. h)
        (λ s h.
          then-Keeps Holds
            (call environment (exists_at (recovery_path environment (ascii "download") s))
              unpreserved)
            _ (λ _ k. k) (λ _ k. k) s h)

  check_integrity-Holds :
      (artifact : ArtifactSpec) (r : ℕ × Bytes)
      → Keeps Holds (check_integrity environment artifact r)
  unfolding check_integrity
  check_integrity-Holds artifact r =
      if-Keeps Holds (is_damaged environment artifact r) _ _
        (then-Keeps Holds (recover_partial environment) (fail_if (λ _. true) download_integrity)
          recover_partial-Holds (λ s h. h))
        (λ s h. h)

  finish_download-Holds :
      (artifact : ArtifactSpec) (archive : FilePath)
      → path_eq archive (objects, name) ≡ false
      → (r : ℕ × Bytes) → Keeps Holds (finish_download environment artifact archive r)
  unfolding finish_download call put
  finish_download-Holds artifact archive p r =
      then-Keeps Holds (call environment (λ _. false) download_staging) _ (λ s h. h)
        (then-Keeps Holds (check_integrity environment artifact r) _
          (check_integrity-Holds artifact r)
          (then-Keeps Holds (call environment (λ _. false) archive_activation)
            (modify (activated environment archive)) (λ s h. h) (λ s h. rw p h)))

  save_response-Holds :
      (artifact : ArtifactSpec) (archive : FilePath)
      → path_eq archive (objects, name) ≡ false
      → (response : Response) → Keeps Holds (save_response environment artifact archive response)
  unfolding save_response call
  save_response-Holds artifact archive p response =
      then-Keeps Holds
        (fail_if (λ _. is_other_size artifact.size response.content_length) download_size) _
        (λ s h. h)
        (then-Keeps Holds (call environment (λ _. false) download_staging) _ (λ s h. h)
          (λ s.
            bind-Keeps Holds (receive environment artifact.size response.stream 0 [])
              (finish_download environment artifact archive)
              (receive-Holds artifact.size response.stream 0 [])
              (finish_download-Holds artifact archive p) (opened environment s)))

  pub download-Holds :
      (artifact : ArtifactSpec) (archive : FilePath)
      → path_eq archive (objects, name) ≡ false
      → Keeps Holds (download environment artifact archive)
  unfolding download request
  download-Holds artifact archive p =
      bind-Keeps Holds (lift (λ _. ok_or (environment.parse_url artifact.url) url_invalid)) _
        (λ s h. h)
        (λ url.
          then-Keeps Holds (fail_if (λ _. not (is_permitted_origin url)) origin_forbidden) _
            (λ s h. h)
            (bind-Keeps Holds (request environment artifact)
              (save_response environment artifact archive) (λ s h. h)
              (save_response-Holds artifact archive p)))
