-- ===== src/Provider/Registry/Latest.antt =====
-- Which manifest a provider's name stands for once the directories are loaded: LoadDirs of
-- backend/internal/provider/registry.go.
use helboot.Prelude.{
  String, ◌≡◌, refl, subst, Bool, false, not, List, [], ◌∷◌, ◌++◌, Option, none, some, Option-cases,
  inl, inr, arith, ◌==◌, String_eq, if◌then◌else◌, first, keep, All, Bool-cases,
}
use helboot.Filepath.{join}
use helboot.Provider.Manifest.{Manifest}
use helboot.Provider.Registry.{
  validate, ManifestFile, no_file, unreadable, parsed, DirEntry, Directory, missing, failing,
  entries, Providers, put, get, load_manifest, named_as, load_entry, put_some, load_entries,
  load_dir, load_all, load_dirs,
}

abbrev add_some : Option Manifest → List Manifest → List Manifest
add_some none ms = ms
add_some (some m) ms = m ∷ ms

-- The valid manifests of a directory, and of all, in the order of loading.
abbrev pub found_in : String → List DirEntry → List Manifest
found_in dir [] = []
found_in dir (e ∷ es) = add_some (load_entry dir e) (found_in dir es)

abbrev pub found : List (String × Directory) → List Manifest
found [] = []
found ((dir, entries es) ∷ dirs) = found_in dir es ++ found dirs
found ((dir, missing) ∷ dirs) = found dirs
found ((dir, failing) ∷ dirs) = found dirs

-- The last manifest of a name.
abbrev pub latest : String → List Manifest → Option Manifest
latest name [] = none
latest name (m ∷ ms) = elim (latest name ms) [
  | some later ↦ some later
  | none ↦ if m.name == name then some m else none
]

abbrev over : Option Manifest → Option Manifest → Option Manifest
over (some m) old = some m
over none old = old

abbrev pub IsReadable : String × Directory → Type 0
IsReadable (dir, missing) = Unit
IsReadable (dir, failing) = ⊥
IsReadable (dir, entries es) = Unit

abbrev pub IsValid : Manifest → Type 0
IsValid m = validate m ≡ none

first-keep :
    (m : Manifest) (name : String) (r : Providers)
    → (m.name == name) ≡ false
    → first (λ p. p.name == name) (keep (λ p. not (p.name == m.name)) r)
      ≡ first (λ p. p.name == name) r
first-keep m name [] h = refl
first-keep m name (p ∷ r) h =
    let ih = first-keep m name r h in
    let same = (String_eq.equals_iff p.name m.name).0 in
    let same' = (String_eq.equals_iff p.name name).0 in
    let same'' = (String_eq.equals_iff m.name name).1 in ground arith

get-put :
    (m : Manifest) (r : Providers) (name : String)
    → get (put m r) name ≡ (if m.name == name then some m else get r name)
unfolding get put
get-put m r name = elim (Bool-cases (m.name == name)) [
  | inl e ↦ rw e refl
  | inr e ↦ rw e (first-keep m name r e)
]

get-load_entries :
    (dir name : String) (es : List DirEntry) (r : Providers)
    → get (load_entries dir es r) name ≡ over (latest name (found_in dir es)) (get r name)
unfolding load_entries put_some
get-load_entries dir name [] r = refl
get-load_entries dir name (e ∷ es) r = go (load_entry dir e) (get-load_entries dir name es)
  where
    go :
        (o : Option Manifest)
        → ((r : Providers)
            → get (load_entries dir es r) name ≡ over (latest name (found_in dir es)) (get r name))
        → get (load_entries dir es (put_some o r)) name
          ≡ over (latest name (add_some o (found_in dir es))) (get r name)
    go none ih = ih r
    go (some m) ih = ground (arith, ih (put m r), get-put m r name)

latest-append :
    (name : String) (ms ns : List Manifest)
    → latest name (ms ++ ns) ≡ over (latest name ns) (latest name ms)
latest-append name [] ns = ground arith
latest-append name (m ∷ ms) ns = ground (arith, latest-append name ms ns)

load_manifest-IsValid :
    (file : ManifestFile) (m : Manifest) → load_manifest file ≡ some m → IsValid m
unfolding load_manifest
load_manifest-IsValid no_file m h = cc
load_manifest-IsValid unreadable m h = cc
load_manifest-IsValid (parsed p) m h = ground arith

named_as-IsValid :
    (dir name : String) (o : Option Manifest) (m : Manifest)
    → ((p : Manifest) → o ≡ some p → IsValid p)
    → named_as dir name o ≡ some m
    → IsValid m
unfolding named_as validate
named_as-IsValid dir name none m v h = cc
named_as-IsValid dir name (some p) m v h = elim (Bool-cases (p.name == name)) [
  | inr e ↦ absurd (ground arith)
  | inl e ↦
      let moved : record p { dir = join dir name } ≡ m = ground arith in
      subst IsValid moved (v p refl)
]

IsValid-load_entry :
    (dir : String) (e : DirEntry) (m : Manifest) → load_entry dir e ≡ some m → IsValid m
unfolding load_entry
IsValid-load_entry dir e m h = elim (Bool-cases e.is_dir) [
  | inl d ↦
      named_as-IsValid dir e.name (load_manifest e.file) m (load_manifest-IsValid e.file)
        (rw (d, load_entry) at h)
  | inr d ↦ absurd (ground arith)
]

All-keep :
    (P : Manifest → Type 0) (p : Manifest → Bool) (r : Providers) → All P r → All P (keep p r)
All-keep P p [] h = tt
All-keep P p (m ∷ r) (a, rest) = elim (Bool-cases (p m)) [
  | inl e ↦ rw e (a, All-keep P p r rest)
  | inr e ↦ rw e (All-keep P p r rest)
]

IsValid-load_entries :
    (dir : String) (es : List DirEntry) (r : Providers)
    → All IsValid r
    → All IsValid (load_entries dir es r)
unfolding load_entries put_some put
IsValid-load_entries dir [] r h = h
IsValid-load_entries dir (e ∷ es) r h = elim (Option-cases (load_entry dir e)) [
  | inl n ↦ rw (n, load_entries, put_some) (IsValid-load_entries dir es r h)
  | inr (m, f) ↦
      rw (f, load_entries, put_some)
        (IsValid-load_entries dir es (put m r)
          (IsValid-load_entry dir e m f, All-keep IsValid _ r h))
]

-- Loading directories that can be read, after the providers `r`.
load_all-latest :
    (dirs : List (String × Directory)) (r : Providers)
    → All IsReadable dirs
    → All IsValid r
    → (r' : Providers) × (load_all dirs r ≡ some r')
      × ((name : String) → get r' name ≡ over (latest name (found dirs)) (get r name))
      × All IsValid r'
unfolding load_all load_dir
load_all-latest [] r h v = (r, refl, λ name. refl, v)
load_all-latest ((dir, missing) ∷ dirs) r (_, h) v = load_all-latest dirs r h v
load_all-latest ((dir, failing) ∷ dirs) r (k, h) v = absurd k
load_all-latest ((dir, entries es) ∷ dirs) r (_, h) v =
    let (r', loaded, gives, valid) =
      load_all-latest dirs (load_entries dir es r) h (IsValid-load_entries dir es r v) in
    (
      r',
      loaded,
      λ name. ground (
        arith,
        gives name,
        get-load_entries dir name es r,
        latest-append name (found_in dir es) (found dirs),
      ),
      valid,
    )

-- Where all directories can be read or are missing, loading succeeds: the registry gives for each
-- name the last valid manifest of that name in a directory of that name, over all directories in
-- their order, and holds valid manifests only.
pub load_dirs-latest :
    (dirs : List (String × Directory))
    → All IsReadable dirs
    → (r : Providers) × (load_dirs dirs ≡ some r)
      × ((name : String) → get r name ≡ latest name (found dirs))
      × All IsValid r
unfolding load_dirs get
load_dirs-latest dirs h =
    let (r, loaded, gives, valid) = load_all-latest dirs [] h tt in
    (r, loaded, λ name. ground (arith, gives name), valid)
