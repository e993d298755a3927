-- ===== src/FileCache/Loading.antt =====
-- loadCacheFiles, the constructors that read the directory, and Clear.
use pvetui.Base.{
  ℕ, suc, ◌+◌, [], ◌∷◌, Option, none, some, Bool, true, false, Str, str, str_eq, length,
  if◌then◌else◌, ◌≡◌, refl, arith, inl, inr, Bool-cases, ◌∙◌, ap, is_some, ◌&&◌, ◌||◌, not, Dict,
  get, delete, get-delete, ℤ,
}
use pvetui.FileCache.{
  CacheItem, FileCache, DirEntry, directory, file, unreadable, Removal, push_front, expired,
  over_cap,
}

abbrev prepend : ℕ → Option Str → Option Str
prepend c none = none
prepend c (some s) = some (c ∷ s)

-- file.Name()[:len(file.Name())-5] where filepath.Ext(file.Name()) == ".json"
unfoldable pub strip_json : Str → Option Str
strip_json [] = none
strip_json (c ∷ s) =
    let rest = prepend c (strip_json s) in if str_eq (c ∷ s) (str ".json") then some [] else rest

-- A failed removal of an expired file is only logged.
pub remove_stale : FileCache → Removal → Str → FileCache
remove_stale c removal name = elim (removal name) [
  | none ↦ record c { dir = delete name c.dir }
  | some e ↦ c
]

pub load_file : FileCache → Removal → ℕ → Str → Option Str → CacheItem → FileCache
unfolding push_front remove_stale expired
load_file c removal now name none item = c
load_file c removal now name (some key) item =
    if expired now item then remove_stale c removal name else push_front c key item

pub load_entry : FileCache → Removal → ℕ → Str → DirEntry → FileCache
unfolding load_file strip_json
load_entry c removal now name directory = c
load_entry c removal now name unreadable = c
load_entry c removal now name (file item) = load_file c removal now name (strip_json name) item

-- The loop over what os.ReadDir listed.
unfoldable pub load_cache_files : FileCache → Removal → ℕ → Dict DirEntry → FileCache
unfolding load_entry
load_cache_files c removal now [] = c
load_cache_files c removal now ((name, entry) ∷ rest) =
    load_cache_files (load_entry c removal now name entry) removal now rest

-- `listed` is none where os.MkdirAll succeeds and os.ReadDir fails, which is only logged.
unfoldable pub new_file_cache_with_size :
    Dict DirEntry → Option (Dict DirEntry) → Removal → ℕ → Bool → ℤ → FileCache
unfolding load_cache_files
new_file_cache_with_size dir listed removal now persisted max_size =
    let c : FileCache = record {
      dir = dir;
      in_memory = [];
      lru_list = [];
      max_size = max_size;
      persisted = persisted;
      next_ref = 0;
    } in
    if persisted
    then (elim listed [ none ↦ c | some files ↦ load_cache_files c removal now files ])
    else c

-- How many live items the listing has.
counts : ℕ → Str → DirEntry → Bool
counts now name directory = false
counts now name unreadable = false
counts now name (file item) = is_some (strip_json name) && not (expired now item)

unfoldable pub live_files : ℕ → Dict DirEntry → ℕ
unfolding counts
live_files now [] = 0
live_files now ((name, entry) ∷ rest) =
    if counts now name entry then suc (live_files now rest) else live_files now rest

load_file-length :
    (c : FileCache) (removal : Removal) (now : ℕ) (name : Str) (entry : DirEntry)
    → length (load_entry c removal now name entry).lru_list
      ≡ (if counts now name entry then suc (length c.lru_list) else length c.lru_list)
unfolding load_entry load_file counts push_front remove_stale
load_file-length c removal now name directory = refl
load_file-length c removal now name unreadable = refl
load_file-length c removal now name (file item) = ground arith

load_entry-cap :
    (c : FileCache) (removal : Removal) (now : ℕ) (name : Str) (entry : DirEntry)
    → (load_entry c removal now name entry).max_size ≡ c.max_size
unfolding load_entry load_file push_front remove_stale
load_entry-cap c removal now name directory = refl
load_entry-cap c removal now name unreadable = refl
load_entry-cap c removal now name (file item) = ground arith

load-length :
    (c : FileCache) (removal : Removal) (now : ℕ) (files : Dict DirEntry)
    → (length (load_cache_files c removal now files).lru_list
        ≡ length c.lru_list + live_files now files)
      × ((load_cache_files c removal now files).max_size ≡ c.max_size)
unfolding load_cache_files live_files
load-length c removal now [] = (omega arith, refl)
load-length c removal now ((name, entry) ∷ rest) =
    let ih = load-length (load_entry c removal now name entry) removal now rest in
    let step = load_file-length c removal now name entry in
    (ground (arith, ih.0, step), ih.1 ∙ load_entry-cap c removal now name entry)

-- Opening a persisted cache loads every live file of the listing, and does not apply the size limit:
-- the cache starts over its cap exactly where there are more live files than the cap allows.
pub new_file_cache_overfull :
    (dir files : Dict DirEntry) (removal : Removal) (now : ℕ) (max_size : ℤ)
    → let c = new_file_cache_with_size dir (some files) removal now true max_size in
      (length c.lru_list ≡ live_files now files)
      × (over_cap (length c.lru_list) c.max_size ≡ over_cap (live_files now files) max_size)
unfolding new_file_cache_with_size
new_file_cache_overfull dir files removal now max_size =
    let r =
      load-length
        (record {
          dir = dir;
          in_memory = [];
          lru_list = [];
          max_size = max_size;
          persisted = true;
          next_ref = 0;
        })
        removal now files in
    (omega (arith, r.0), rw (r.1) (ap (λ n. over_cap n max_size) (omega (arith, r.0))))

abbrev removed_or_stop :
    Dict DirEntry × Option Str → Dict DirEntry → Option Str → Dict DirEntry × Option Str
removed_or_stop cleared dir none = cleared
removed_or_stop cleared dir (some e) = (dir, some e)

-- Clear: the loop over what os.ReadDir listed stops at the first removal that fails.
unfoldable pub clear_files : Dict DirEntry → Removal → Dict DirEntry → Dict DirEntry × Option Str
unfolding strip_json
clear_files dir removal [] = (dir, none)
clear_files dir removal ((name, directory) ∷ rest) = clear_files dir removal rest
clear_files dir removal ((name, entry) ∷ rest) =
    let skipped = clear_files dir removal rest in
    let cleared = clear_files (delete name dir) removal rest in
    if is_some (strip_json name) then removed_or_stop cleared dir (removal name) else skipped

unfoldable pub clear : FileCache → Removal → Option (Dict DirEntry) → FileCache × Option Str
unfolding clear_files
clear c removal listed =
    let c' : FileCache = record c { in_memory = []; lru_list = [] } in
    if c.persisted
    then (elim listed [
      | none ↦ (c', some (str "failed to read cache directory"))
      | some files ↦
          (let (dir', e) = clear_files c.dir removal files in (record c' { dir = dir' }, e))
    ])
    else (c', none)

-- The listing has a file of this name with the extension.
pub lists_json : Str → Dict DirEntry → Bool
lists_json name [] = false
lists_json name ((n, directory) ∷ rest) = lists_json name rest
lists_json name ((n, entry) ∷ rest) =
    (str_eq n name && is_some (strip_json n)) || lists_json name rest

abbrev Cleared : Str → Dict DirEntry → Dict DirEntry → Dict DirEntry → Type 0
Cleared name listed dir dir' =
    get name dir' ≡ (if lists_json name listed then none else get name dir)

-- A Clear that reports no error has removed exactly the listed JSON files.
clear_files-get :
    (dir : Dict DirEntry) (removal : Removal) (listed : Dict DirEntry) (name : Str)
    → (clear_files dir removal listed).1 ≡ none
    → Cleared name listed dir (clear_files dir removal listed).0
unfolding clear_files lists_json
clear_files-get dir removal [] name h = refl
clear_files-get dir removal ((n, directory) ∷ rest) name h = clear_files-get dir removal rest name h
clear_files-get dir removal ((n, entry) ∷ rest) name h =
    let gone = clear_files-get (delete n dir) removal rest name in
    let kept = clear_files-get dir removal rest name in
    ground (arith, gone, kept, get-delete n name dir, h)

-- Clear empties the memory, and where it reports no error it has removed exactly the JSON files that
-- the directory listing showed; a cache that is not persisted keeps its directory.
clear_lem :
    (c : FileCache) (removal : Removal) (files : Dict DirEntry) (name : Str)
    → (clear c removal (some files)).1 ≡ none
    → let c' = (clear c removal (some files)).0 in
      (c'.lru_list ≡ [])
      × (c'.in_memory ≡ [])
      × (get name c'.dir ≡ (if c.persisted && lists_json name files then none else get name c.dir))
unfolding clear
clear_lem c removal files name h = elim (Bool-cases c.persisted) [
  | inl y ↦ rw y (refl, refl, clear_files-get c.dir removal files name (rw y at h))
  | inr n ↦ rw n (refl, refl, refl)
]
