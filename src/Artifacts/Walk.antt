-- ===== src/Artifacts/Walk.antt =====
-- The entries that `inventory_files` meets, crates/impossible-voice-artifacts/src/lib.rs.
use impossible_voice.Prelude.{
  ◌≡◌, refl, sym, ap, ◌∙◌, subst, true, not, some, List, [], ◌∷◌, ◌++◌, ok, ◌⊎◌, inl, inr,
  Bool-cases, all, >>=-eq-ok, >>-eq-ok, ok_injective, arith,
}
use mathlib.Core.List.{Memᴰ}
use mathlib.Core.List.Memᴰ
use impossible_voice.Prelude.Bytes.{eq_of_bytes_eq, Bytes, bytes_eq, bytes_eq_refl, contains_bytes}
use impossible_voice.Artifacts.{reject_if, installed_path, installation_file, path_text}
use impossible_voice.Artifacts.Installed.{
  FileType, symlink, directory, file, other, DirEntry, entry, unreadable, untyped, Disk, Inventory,
  insert_file, add_file, add_entry, add_entries,
}

-- The directories that can be reached from one of them.
pub data Reaches (disk : Disk) : List Bytes → List Bytes → Type 0 where
  here : {d : List Bytes} → Reaches disk d d
  below :
      {d e : List Bytes} (entries : List DirEntry) (name : Bytes)
      → disk.read_dir d ≡ some entries
      → Memᴰ (entry name directory) entries
      → Reaches disk (d ++ (name ∷ [])) e
      → Reaches disk d e

-- What may stand in a directory: directories, the marker, and files that are listed.
abbrev pub IsListed : List Bytes → List Bytes → DirEntry → Type 0
IsListed files d unreadable = ⊥
IsListed files d (untyped name) = ⊥
IsListed files d (entry name symlink) = ⊥
IsListed files d (entry name directory) = Unit
IsListed files d (entry name file) =
    (path_text (d ++ (name ∷ [])) ≡ installation_file)
    ⊎ (contains_bytes (path_text (d ++ (name ∷ []))) files ≡ true)
IsListed files d (entry name other) = ⊥

-- Nothing is taken back.
pub record Extends (found more : Inventory) : Type 0 where
  pub files : (p : Bytes) → contains_bytes p found.files ≡ true → contains_bytes p more.files ≡ true
  pub pending : (d : List Bytes) → Memᴰ d found.pending → Memᴰ d more.pending

entry_injective : {a b : Bytes} {k l : FileType} → entry a k ≡ entry b l → a ≡ b
entry_injective p = cc

module _ (disk : Disk) where
  Extends-refl : (found : Inventory) → Extends found found
  Extends-refl found = record { files = λ p h. h; pending = λ d m. m }

  Extends-trans : (a b c : Inventory) → Extends a b → Extends b c → Extends a c
  Extends-trans a b c f g = record {
    files = λ p h. g.files p (f.files p h);
    pending = λ d m. g.pending d (f.pending d m);
  }

  insert_file-contains :
      (p name : Bytes) (files : List Bytes)
      → contains_bytes p files ≡ true
      → contains_bytes p (insert_file name files) ≡ true
  unfolding insert_file
  insert_file-contains p name files h = ground arith

  contains_bytes-insert_file :
      (name : Bytes) (files : List Bytes) → contains_bytes name (insert_file name files) ≡ true
  unfolding insert_file
  contains_bytes-insert_file name files = ground (arith, bytes_eq_refl name)

  -- One entry: it is acceptable where it stands, and where it is a directory it is pending.
  pub record Added (d : List Bytes) (e : DirEntry) (found more : Inventory) : Type 0 where
    pub extends : Extends found more
    pub listed : IsListed more.files d e
    pub queued : (name : Bytes) → e ≡ entry name directory → Memᴰ (d ++ (name ∷ [])) more.pending

  marker-Added :
      (d : List Bytes) (name : Bytes) (found : Inventory)
      → path_text (d ++ (name ∷ [])) ≡ installation_file
      → Added d (entry name file) found found
  marker-Added d name found p = record {
    extends = Extends-refl found;
    listed = inl p;
    queued = λ _ e. cc;
  }

  listed-Added :
      (d : List Bytes) (name : Bytes) (found : Inventory)
      → Added d
          (entry name file)
          found
          (record found { files = insert_file (path_text (d ++ (name ∷ []))) found.files })
  listed-Added d name found = record {
    extends = record {
      files = λ p h. insert_file-contains p (path_text (d ++ (name ∷ []))) found.files h;
      pending = λ _ m. m;
    };
    listed = inr (contains_bytes-insert_file (path_text (d ++ (name ∷ []))) found.files);
    queued = λ _ e. cc;
  }

  add_file-Added :
      (d : List Bytes) (name : Bytes) (found more : Inventory)
      → add_file disk (d ++ (name ∷ [])) found ≡ ok more
      → Added d (entry name file) found more
  unfolding add_file
  add_file-Added d name found more p =
      let text = path_text (d ++ (name ∷ [])) in
      let (_, q) =
        >>-eq-ok (reject_if (not (all disk.is_utf8 (d ++ (name ∷ [])))) installed_path) _ p in
      elim (Bool-cases (bytes_eq text installation_file)) [
        | inl e ↦
            subst (Added d (entry name file) found) (sym (rw e refl) ∙ ok_injective q)
              (marker-Added d name found (eq_of_bytes_eq text installation_file e))
        | inr e ↦
            subst (Added d (entry name file) found) (sym (rw e refl) ∙ ok_injective q)
              (listed-Added d name found)
      ]

  add_entry-Added :
      (d : List Bytes) (e : DirEntry) (found more : Inventory)
      → add_entry disk d e found ≡ ok more
      → Added d e found more
  unfolding add_entry
  add_entry-Added d unreadable found more p = cc
  add_entry-Added d (untyped name) found more p = cc
  add_entry-Added d (entry name symlink) found more p = cc
  add_entry-Added d (entry name directory) found more p =
      subst (Added d (entry name directory) found) (ok_injective p) (record {
        extends = record { files = λ _ h. h; pending = λ _ m. Memᴰ.tail m };
        listed = tt;
        queued = λ other_name e. Memᴰ.head (ap (λ n. d ++ (n ∷ [])) (sym (entry_injective e)));
      })
  add_entry-Added d (entry name file) found more p = add_file-Added d name found more p
  add_entry-Added d (entry name other) found more p = cc

  -- All the entries of a directory.
  pub record AllAdded (d : List Bytes) (entries : List DirEntry) (found more : Inventory)
      : Type 0 where
    pub extends : Extends found more
    pub listed : (e : DirEntry) → Memᴰ e entries → IsListed more.files d e
    pub queued :
        (name : Bytes) → Memᴰ (entry name directory) entries → Memᴰ (d ++ (name ∷ [])) more.pending

  pub IsListed-grows :
      (d : List Bytes) (e : DirEntry) (few many : List Bytes)
      → ((p : Bytes) → contains_bytes p few ≡ true → contains_bytes p many ≡ true)
      → IsListed few d e
      → IsListed many d e
  IsListed-grows d unreadable few many f h = h
  IsListed-grows d (untyped name) few many f h = h
  IsListed-grows d (entry name symlink) few many f h = h
  IsListed-grows d (entry name directory) few many f h = h
  IsListed-grows d (entry name file) few many f (inl h) = inl h
  IsListed-grows d (entry name file) few many f (inr h) = inr (f (path_text (d ++ (name ∷ []))) h)
  IsListed-grows d (entry name other) few many f h = h

  pub add_entries-AllAdded :
      (d : List Bytes) (entries : List DirEntry) (found more : Inventory)
      → add_entries disk d entries found ≡ ok more
      → AllAdded d entries found more
  unfolding add_entries
  add_entries-AllAdded d [] found more p = subst (AllAdded d [] found) (ok_injective p) (record {
    extends = Extends-refl found;
    listed = λ e m. elim (Memᴰ.not-nil m) [ ];
    queued = λ name m. elim (Memᴰ.not-nil m) [ ];
  })
  add_entries-AllAdded d (e ∷ entries) found more p =
      let (mid, p1, p2) = >>=-eq-ok (add_entry disk d e found) _ p in
      let first = add_entry-Added d e found mid p1 in
      let rest = add_entries-AllAdded d entries mid more p2 in
      record {
        extends = Extends-trans found mid more first.extends rest.extends;
        listed = λ x m. elim m [
          | Memᴰ.head q ↦
              subst (IsListed more.files d) (sym q)
                (IsListed-grows d e mid.files more.files rest.extends.files first.listed)
          | Memᴰ.tail n ↦ rest.listed x n
        ];
        queued = λ name m. elim m [
          | Memᴰ.head q ↦ rest.extends.pending (d ++ (name ∷ [])) (first.queued name (sym q))
          | Memᴰ.tail n ↦ rest.queued name n
        ];
      }
