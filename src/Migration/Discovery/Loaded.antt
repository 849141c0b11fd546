-- ===== src/Migration/Discovery/Loaded.antt =====
-- What `Discover` returns, against the entries of the directory.
use mathlib.Core.List.{Permᴰ}
use mathlib.Core.List.Permᴰ
use schemago.Base.{
  ◌≡◌, refl, ap, sym, subst, List, [], ◌∷◌, map, Result, ok, err, ◌>>=◌, arith, All, Sorted, inl,
  inr, Bool-cases, Result-cases, if◌then◌else◌,
}
use schemago.Text.{Bytes}
use schemago.Files.{Files, DirEntry}
use schemago.Sort.Order.{All-perm}
use schemago.Migration.Checksum.{compute_file_checksum}
use schemago.Migration.Filename.{MigrationFile, parse_filename}
use schemago.Migration.Filename.Grammar.{parse_filename-Verdict}
use schemago.Migration.Order.{OrderError, validate_and_sort}
use schemago.Migration.Order.Sorted.{Verdict as OrderVerdict}
use schemago.Migration.Order.Sorted.{IsOlder, IsOther, validate_and_sort-Verdict}
use schemago.Migration.Discovery.{
  DiscoverError, read_dir_failed, invalid_file, checksum_failed, invalid_set, is_ignored,
  add_checksum, with_checksum, load_file, load_entries, sort_loaded, load_dir, discover,
}

-- The paths of the entries that are not ignored.
abbrev pub kept_paths : Files → Bytes → List DirEntry → List Bytes
kept_paths fs dir [] = []
kept_paths fs dir (entry ∷ entries) =
    let rest = kept_paths fs dir entries in
    if is_ignored entry then rest else fs.join dir entry.name ∷ rest

-- The file is what its path says, with the checksum of what is on disk.
abbrev pub IsLoaded : Files → MigrationFile → Type 0
IsLoaded fs file =
    (parse_filename file.path ≡ ok (record file { checksum = [] }))
    × (compute_file_checksum fs file.path ≡ ok file.checksum)

abbrev paths : List MigrationFile → List Bytes
paths = map (λ f. f.path)

-- The path has a name of the convention, and the file can be read.
abbrev pub IsLoadable : Files → Bytes → Type 0
IsLoadable fs path =
    ((file : MigrationFile) × (parse_filename path ≡ ok file))
    × ((checksum : Bytes) × (compute_file_checksum fs path ≡ ok checksum))

-- An error about one file, for which `P` holds.
abbrev Blames : DiscoverError → Type 0 → Type 0
Blames (invalid_file d e) P = P
Blames (checksum_failed path e) P = P
Blames _ P = ⊥

Blames-map : {P Q : Type 0} (e : DiscoverError) → (P → Q) → Blames e P → Blames e Q
Blames-map (read_dir_failed d x) f h = absurd h
Blames-map (invalid_set d x) f h = absurd h
Blames-map (invalid_file d x) f h = f h
Blames-map (checksum_failed path x) f h = f h

-- What `load_file` says of a path, and the loop of some paths.
abbrev FileVerdict : Files → Bytes → Result DiscoverError MigrationFile → Type 0
FileVerdict fs path (ok file) = (file.path ≡ path) × IsLoaded fs file
FileVerdict fs path (err e) = Blames e (¬ IsLoadable fs path)

abbrev LoadVerdict : Files → List Bytes → Result DiscoverError (List MigrationFile) → Type 0
LoadVerdict fs ps (ok files) = (paths files ≡ ps) × All (IsLoaded fs) files
LoadVerdict fs ps (err e) = Blames e (¬ All (IsLoadable fs) ps)

parse_filename_path :
    (path : Bytes) (file : MigrationFile)
    → parse_filename path ≡ ok file
    → (file.path ≡ path) × (file.checksum ≡ [])
parse_filename_path path file h =
    let (f, lt, same) = rw h at (parse_filename-Verdict path) in
    (ap (λ m. m.path) same, ap (λ m. m.checksum) same)

load_file-FileVerdict :
    (fs : Files) (dir path : Bytes) → FileVerdict fs path (load_file fs dir path)
unfolding load_file
load_file-FileVerdict fs dir path = elim (Result-cases (parse_filename path)) [
  | inr (e, p) ↦ rw (p, with_checksum) (λ l. cc (p, l.0.1))
  | inl (file, p) ↦ elim (Result-cases (compute_file_checksum fs path)) [
    | inr (e, c) ↦ rw (p, with_checksum) (rw (c, add_checksum) (λ l. cc (c, l.1.1)))
    | inl (checksum, c) ↦
        let (q, z) = parse_filename_path path file p in
        rw (p, with_checksum)
          (rw (c, add_checksum) (q, (ground (arith, p, q, z), ground (arith, c, q))))
  ]
]

load_entries-LoadVerdict :
    (fs : Files) (dir : Bytes) (entries : List DirEntry)
    → LoadVerdict fs (kept_paths fs dir entries) (load_entries fs dir entries)
unfolding load_entries
load_entries-LoadVerdict fs dir [] = (refl, tt)
load_entries-LoadVerdict fs dir (entry ∷ entries) = elim (Bool-cases (is_ignored entry)) [
  | inl t ↦ rw (t, load_entries, kept_paths) (load_entries-LoadVerdict fs dir entries)
  | inr t ↦
      rw (t, load_entries, kept_paths)
        (go (load_file fs dir (fs.join dir entry.name))
          (load_file-FileVerdict fs dir (fs.join dir entry.name)) (load_entries fs dir entries)
          (load_entries-LoadVerdict fs dir entries))
]
  where
    go :
        (r : Result DiscoverError MigrationFile)
        → FileVerdict fs (fs.join dir entry.name) r
        → (rs : Result DiscoverError (List MigrationFile))
        → LoadVerdict fs (kept_paths fs dir entries) rs
        → LoadVerdict fs
            (fs.join dir entry.name ∷ kept_paths fs dir entries)
            (r >>= λ file. rs >>= λ files. ok (file ∷ files))
    go (ok file) h (ok files) hs = (ground (arith, h.0, hs.0), (h.1, hs.1))
    go (ok file) h (err e) hs = Blames-map e (λ n all. n all.1) hs
    go (err e) h rs hs = Blames-map e (λ n all. n all.0) h

map-perm : {A B : Type 0} (f : A → B) {xs ys : List A} → Permᴰ xs ys → Permᴰ (map f xs) (map f ys)
map-perm f Permᴰ.nil = Permᴰ.nil
map-perm f (Permᴰ.cons e p) = Permᴰ.cons (ap f e) (map-perm f p)
map-perm f (Permᴰ.swap e g) = Permᴰ.swap (ap f e) (ap f g)
map-perm f (Permᴰ.trans p q) = Permᴰ.trans (map-perm f p) (map-perm f q)

-- The directory was read, and holds these paths.
abbrev pub Lists : Files → Bytes → List Bytes → Type 0
Lists fs dir ps =
    (entries : List DirEntry) × (fs.read_dir dir ≡ ok entries) × (ps ≡ kept_paths fs dir entries)

-- What each result says of the directory.
abbrev pub Verdict : Files → Bytes → Result DiscoverError (List MigrationFile) → Type 0
Verdict fs dir (ok files) =
    (ps : List Bytes) × Lists fs dir ps
    × Permᴰ (paths files) ps
    × Sorted IsOlder files
    × All (IsLoaded fs) files
Verdict fs dir (err (read_dir_failed d e)) = fs.read_dir dir ≡ err e
Verdict fs dir (err (invalid_set d e)) =
    (files : List MigrationFile) × Lists fs dir (paths files)
    × All (IsLoaded fs) files
    × ¬ Sorted IsOther files
Verdict fs dir (err _) = (ps : List Bytes) × Lists fs dir ps × ¬ All (IsLoadable fs) ps

Verdict-sort_loaded :
    (fs : Files) (dir : Bytes) (files : List MigrationFile)
    → Lists fs dir (paths files)
    → All (IsLoaded fs) files
    → Verdict fs dir (sort_loaded dir (validate_and_sort files))
Verdict-sort_loaded fs dir files l h =
    go (validate_and_sort files) (validate_and_sort-Verdict files)
  where
    go :
        (r : Result OrderError (List MigrationFile))
        → OrderVerdict files r
        → Verdict fs dir (sort_loaded dir r)
    go (ok out) (p, s) =
        (paths files, l, map-perm (λ f. f.path) p, s, All-perm (IsLoaded fs) (Permᴰ.symm p) h)
    go (err e) n = (files, l, h, n)

pub discover-Verdict : (fs : Files) (dir : Bytes) → Verdict fs dir (discover fs dir)
unfolding discover
discover-Verdict fs dir = elim (Result-cases (fs.read_dir dir)) [
  | inr (e, d) ↦ rw (d, load_dir) d
  | inl (entries, d) ↦
      rw (d, load_dir)
        (go (load_entries fs dir entries) (kept_paths fs dir entries) (entries, d, refl)
          (load_entries-LoadVerdict fs dir entries))
]
  where
    go :
        (r : Result DiscoverError (List MigrationFile)) (ps : List Bytes)
        → Lists fs dir ps
        → LoadVerdict fs ps r
        → Verdict fs dir (r >>= λ files. sort_loaded dir (validate_and_sort files))
    go (ok files) ps l (e, h) = Verdict-sort_loaded fs dir files (subst (Lists fs dir) (sym e) l) h
    go (err (invalid_file d x)) ps l h = (ps, l, h)
    go (err (checksum_failed path x)) ps l h = (ps, l, h)
    go (err (read_dir_failed d x)) ps l h = absurd h
    go (err (invalid_set d x)) ps l h = absurd h
