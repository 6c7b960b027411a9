-- ===== src/Artifacts/Complete.antt =====
-- The loop of `inventory_files`, crates/impossible-voice-artifacts/src/lib.rs.
use impossible_voice.Prelude.{
  ℕ, zero, suc, ◌≡◌, refl, sym, ap, ◌∙◌, subst, true, some, List, [], ◌∷◌, ◌++◌, ok, err, ◌⊎◌, inl,
  inr, Option-cases, List-cases, Result-cases, some_injective, some_ok_injective,
}
use mathlib.Core.List.{Memᴰ}
use mathlib.Core.List.Memᴰ
use impossible_voice.Prelude.Bytes.{Bytes, contains_bytes}
use impossible_voice.Artifacts.{uninventoried}
use impossible_voice.Artifacts.Installed.{
  directory, DirEntry, entry, Disk, Inventory, add_entries, walk, start_at_root, inventory_files,
}
use impossible_voice.Artifacts.Walk.{
  Reaches, here, below, IsListed, IsListed-grows, add_entries-AllAdded,
}

module _ (disk : Disk) where
  -- What a round does when the walk succeeds.
  record Round (fuel : ℕ) (found : Inventory) (files : List Bytes) : Type 0 where
    from : List Bytes
    rest : List (List Bytes)
    entries : List DirEntry
    more : Inventory
    pending : found.pending ≡ from ∷ rest
    read : disk.read_dir from ≡ some entries
    added : add_entries disk from entries (record found { pending = rest }) ≡ ok more
    later : walk disk fuel more ≡ some (ok files)

  walk-eq-ok :
      (fuel : ℕ) (found : Inventory) (files : List Bytes)
      → walk disk (suc fuel) found ≡ some (ok files)
      → ((found.pending ≡ []) × (found.files ≡ files)) ⊎ Round fuel found files
  unfolding walk
  walk-eq-ok fuel found files p = elim (List-cases found.pending) [
    | inl e ↦
        let q : walk disk (suc fuel) found ≡ some (ok found.files) = rw (e, walk) refl in
        inl (e, some_ok_injective (sym q ∙ p))
    | inr (from, rest, e) ↦ elim (Option-cases (disk.read_dir from)) [
      | inl r ↦
          let q : walk disk (suc fuel) found ≡ some (err uninventoried) =
            rw (e, walk) (rw (r, walk) refl) in
          let clash = sym q ∙ p in cc
      | inr (entries, r) ↦
          elim (Result-cases (add_entries disk from entries (record found { pending = rest }))) [
            | inl (failure, a) ↦
                let q : walk disk (suc fuel) found ≡ some (err failure) =
                  rw (e, walk) (rw (r, walk) (rw (a, walk) refl)) in
                let clash = sym q ∙ p in cc
            | inr (more, a) ↦
                let q : walk disk (suc fuel) found ≡ walk disk fuel more =
                  rw (e, walk) (rw (r, walk) (rw (a, walk) refl)) in
                inr (record {
                  from = from;
                  rest = rest;
                  entries = entries;
                  more = more;
                  pending = e;
                  read = r;
                  added = a;
                  later = sym q ∙ p;
                })
          ]
    ]
  ]

  -- What is pending is walked through, with all that is below it.
  abbrev Complete : Inventory → List Bytes → Type 0
  Complete found files =
      ((p : Bytes) → contains_bytes p found.files ≡ true → contains_bytes p files ≡ true)
      × ((d e : List Bytes) (entries : List DirEntry) (x : DirEntry)
          → Memᴰ d found.pending
          → Reaches disk d e
          → disk.read_dir e ≡ some entries
          → Memᴰ x entries
          → IsListed files e x)

  IsListed-below :
      (fuel : ℕ) (found : Inventory) (files : List Bytes) (r : Round fuel found files)
      → Complete r.more files
      → (d e : List Bytes) (entries : List DirEntry) (x : DirEntry) → d ≡ r.from
      → Reaches disk d e
      → disk.read_dir e ≡ some entries
      → Memᴰ x entries
      → IsListed files e x
  IsListed-below fuel found files r (kept, walked) d e entries x at here read x_in =
      let all_added =
        add_entries-AllAdded disk r.from r.entries (record found { pending = r.rest }) r.more
          r.added in
      let same : entries ≡ r.entries = some_injective (sym read ∙ ap disk.read_dir at ∙ r.read) in
      IsListed-grows disk e x r.more.files files kept (
        subst (λ y. IsListed r.more.files y x) (sym at)
          (all_added.listed x (subst (Memᴰ x) same x_in)))
  IsListed-below fuel found files r (kept, walked) d e entries x at
        (below es name here_read m reach) read x_in =
      let all_added =
        add_entries-AllAdded disk r.from r.entries (record found { pending = r.rest }) r.more
          r.added in
      let same : es ≡ r.entries = some_injective (sym here_read ∙ ap disk.read_dir at ∙ r.read) in
      let next = all_added.queued name (subst (Memᴰ (entry name directory)) same m) in
      walked (d ++ (name ∷ [])) e entries x
        (subst (λ y. Memᴰ (y ++ (name ∷ [])) r.more.pending) (sym at) next) reach read x_in

  Round-Complete :
      (fuel : ℕ) (found : Inventory) (files : List Bytes) (r : Round fuel found files)
      → Complete r.more files
      → Complete found files
  Round-Complete fuel found files r (kept, walked) =
      let all_added =
        add_entries-AllAdded disk r.from r.entries (record found { pending = r.rest }) r.more
          r.added in
      (
        λ p h. kept p (all_added.extends.files p h),
        λ d e entries x m reach read x_in. elim (subst (Memᴰ d) r.pending m) [
          | Memᴰ.tail n ↦ walked d e entries x (all_added.extends.pending d n) reach read x_in
          | Memᴰ.head q ↦
              IsListed-below fuel found files r (kept, walked) d e entries x q reach read x_in
        ],
      )

  walk-zero : (found : Inventory) (files : List Bytes) → walk disk zero found ≡ some (ok files) → ⊥
  unfolding walk
  walk-zero found files p = cc

  walk-Complete :
      (fuel : ℕ) (found : Inventory) (files : List Bytes)
      → walk disk fuel found ≡ some (ok files)
      → Complete found files
  walk-Complete zero found files p = elim (walk-zero found files p) [ ]
  walk-Complete (suc fuel) found files p = elim (walk-eq-ok fuel found files p) [
    | inl (e, same) ↦ (
      λ p h. subst (λ fs. contains_bytes p fs ≡ true) same h,
      λ d _ _ _ m _ _ _. elim (Memᴰ.not-nil (subst (Memᴰ d) e m)) [ ],
    )
    | inr r ↦ Round-Complete fuel found files r (walk-Complete fuel r.more files r.later)
  ]

-- The walk of a directory tree that succeeds, on whatever fuel, has seen it whole: in every
-- directory that can be reached from the root, each entry is a directory, the marker or a file that
-- is in the result. No symbolic link, nothing of another type, and no entry that could not be read
-- is anywhere.
pub inventory_files-IsListed :
    (disk : Disk) (fuel : ℕ) (files : List Bytes)
    → inventory_files disk fuel ≡ some (ok files)
    → (d : List Bytes) (entries : List DirEntry) (e : DirEntry) → Reaches disk [] d
    → disk.read_dir d ≡ some entries
    → Memᴰ e entries
    → IsListed files d e
unfolding inventory_files
inventory_files-IsListed disk fuel files p d entries e =
    (walk-Complete disk fuel (start_at_root disk) files p).1 [] d entries e (Memᴰ.head refl)
