-- ===== src/Artifacts/Finite.antt =====
-- The measure of the loop of `inventory_files`, crates/impossible-voice-artifacts/src/lib.rs.
use impossible_voice.Prelude.{
  ℕ, zero, suc, ◌+◌, ◌<◌, ◌≡◌, refl, sym, ap, ◌∙◌, some, List, [], ◌∷◌, ◌++◌, Result, ok, err, inl,
  inr, Option-cases, arith, List-cases, Result-cases, >>=-eq-ok, >>-eq-ok, ok_injective, Bool-cases,
  all, not, reject_if,
}
use impossible_voice.Prelude.Bytes.{Bytes, bytes_eq}
use impossible_voice.Artifacts.{
  ArtifactError, uninventoried, installed_path, installation_file, path_text,
}
use impossible_voice.Artifacts.Installed.{
  symlink, directory, file, other, DirEntry, entry, unreadable, untyped, Disk, Inventory,
  insert_file, add_file, add_entry, add_entries, walk, start_at_root, inventory_files,
}

-- The sums of a measure of directories over those that an entry list names, and over a row of them.
unfoldable pub entry_weight : (List Bytes → ℕ) → List Bytes → DirEntry → ℕ
entry_weight weight d (entry name directory) = weight (d ++ (name ∷ []))
entry_weight weight d _ = 0

unfoldable pub below_weight : (List Bytes → ℕ) → List Bytes → List DirEntry → ℕ
unfolding entry_weight
below_weight weight d [] = 0
below_weight weight d (e ∷ entries) = entry_weight weight d e + below_weight weight d entries

unfoldable pub row_weight : (List Bytes → ℕ) → List (List Bytes) → ℕ
row_weight weight [] = 0
row_weight weight (d ∷ ds) = weight d + row_weight weight ds

module _ (disk : Disk) (weight : List Bytes → ℕ) where
  add_file-pending :
      (path : List Bytes) (found more : Inventory)
      → add_file disk path found ≡ ok more
      → more.pending ≡ found.pending
  unfolding add_file
  add_file-pending path found more p =
      let (_, q) = >>-eq-ok (reject_if (not (all disk.is_utf8 path)) installed_path) _ p in
      elim (Bool-cases (bytes_eq (path_text path) installation_file)) [
        | inl e ↦
            let same : ◌≡◌ {A = Result ArtifactError Inventory} (ok found) (ok more) =
              sym (rw e refl) ∙ q in
            ap (λ x. x.pending) (sym (ok_injective same))
        | inr e ↦
            let same : ◌≡◌ {A = Result ArtifactError Inventory}
                (ok (record found { files = insert_file (path_text path) found.files })) (ok more) =
              sym (rw e refl) ∙ q in
            ap (λ x. x.pending) (sym (ok_injective same))
      ]

  add_entry-weight :
      (d : List Bytes) (e : DirEntry) (found more : Inventory)
      → add_entry disk d e found ≡ ok more
      → row_weight weight more.pending ≡ entry_weight weight d e + row_weight weight found.pending
  unfolding add_entry entry_weight row_weight
  add_entry-weight d unreadable found more p = cc
  add_entry-weight d (untyped name) found more p = cc
  add_entry-weight d (entry name symlink) found more p = cc
  add_entry-weight d (entry name directory) found more p =
      ap (λ x. row_weight weight x.pending) (sym (ok_injective p))
  add_entry-weight d (entry name file) found more p =
      let same = ap (row_weight weight) (add_file-pending (d ++ (name ∷ [])) found more p) in
      omega arith
  add_entry-weight d (entry name other) found more p = cc

  add_entries-weight :
      (d : List Bytes) (entries : List DirEntry) (found more : Inventory)
      → add_entries disk d entries found ≡ ok more
      → row_weight weight more.pending
        ≡ below_weight weight d entries + row_weight weight found.pending
  unfolding add_entries below_weight
  add_entries-weight d [] found more p =
      let same = ap (λ x. row_weight weight x.pending) (ok_injective p) in omega arith
  add_entries-weight d (e ∷ entries) found more p =
      let (mid, p1, p2) = >>=-eq-ok (add_entry disk d e found) _ p in
      let first = add_entry-weight d e found mid p1 in
      let rest = add_entries-weight d entries mid more p2 in omega arith

  walk-terminates :
      ((d : List Bytes) (entries : List DirEntry)
        → disk.read_dir d ≡ some entries
        → below_weight weight d entries < weight d)
      → (fuel : ℕ) (found : Inventory) → row_weight weight found.pending < fuel
      → (r : Result ArtifactError (List Bytes)) × (walk disk fuel found ≡ some r)
  unfolding walk row_weight
  walk-terminates finite zero found h = elim h [ ]
  walk-terminates finite (suc fuel) found h = elim (List-cases found.pending) [
    | inl e ↦ (ok found.files, rw (e, walk) refl)
    | inr (from, rest, e) ↦ elim (Option-cases (disk.read_dir from)) [
      | inl r ↦ (err uninventoried, rw (e, walk) (rw (r, walk) refl))
      | inr (entries, r) ↦
          elim (Result-cases (add_entries disk from entries (record found { pending = rest }))) [
            | inl (failure, a) ↦ (err failure, rw (e, walk) (rw (r, walk) (rw (a, walk) refl)))
            | inr (more, a) ↦
                let smaller = finite from entries r in
                let grown =
                  add_entries-weight from entries (record found { pending = rest }) more a in
                let split : row_weight weight found.pending ≡ weight from + row_weight weight rest =
                  ap (row_weight weight) e in
                let (result, q) = walk-terminates finite fuel more (omega arith) in
                (result, rw (e, walk) (rw (r, walk) (rw (a, walk) q)))
          ]
    ]
  ]

-- On a directory tree that is finite, which is to say that a measure of its directories is in each
-- larger than in the directories below it together, the walk needs no more fuel than the measure of
-- the root, and comes to an end.
pub inventory_files-terminates :
    (disk : Disk) (weight : List Bytes → ℕ)
    → ((d : List Bytes) (entries : List DirEntry)
        → disk.read_dir d ≡ some entries
        → below_weight weight d entries < weight d)
    → (fuel : ℕ) → weight [] < fuel
    → (r : Result ArtifactError (List Bytes)) × (inventory_files disk fuel ≡ some r)
unfolding inventory_files row_weight
inventory_files-terminates disk weight finite fuel h =
    walk-terminates disk weight finite fuel (start_at_root disk) (omega arith)
