-- ===== src/FileCache.antt =====
-- internal/cache/cache.go: the file cache with least-recently-used eviction. `container/list` is a
-- list of elements, front first; an element's `ref` is the pointer that the key map holds. The
-- directory is a dictionary from file names. The clock, what JSON encodes and decodes, and which
-- file operations fail are arguments.
pub mod Elements
pub mod Consistent
pub mod Eviction
pub mod Lookups
pub mod Loading
pub mod History
pub mod Tests
use pvetui.Base.{
  ℕ, zero, suc, ◌+◌, ◌-◌, ◌/◌, List, [], ◌∷◌, ◌++◌, Option, none, some, Bool, true, false, not,
  ◌&&◌, ◌||◌, Str, str, str_eq, Dict, get, put, delete, ℤ, pos, negsuc, length, ltb, ◌==◌,
  if◌then◌else◌, is_some,
}

-- `ttl` is in seconds; none expires where it is 0 or less.
pub record CacheItem : Type 0 where
  pub contents : Str
  pub timestamp : ℕ
  pub ttl : ℤ

pub record Element : Type 0 where
  pub ref : ℕ
  pub key : Str
  pub item : CacheItem

pub data DirEntry : Type 0 where
  directory : DirEntry
  file : CacheItem → DirEntry
  -- a file that cannot be read or parsed
  unreadable : DirEntry

pub record FileCache : Type 0 where
  pub dir : Dict DirEntry
  pub in_memory : Dict ℕ
  pub lru_list : List Element
  pub max_size : ℤ
  pub persisted : Bool
  -- the pointer that the next new element gets
  pub next_ref : ℕ

-- item.TTL > 0 && time.Now().Unix()-item.Timestamp > item.TTL
pub expired : ℕ → CacheItem → Bool
expired now item = elim item.ttl [
  | pos t ↦ ltb 0 t && ltb t (now - item.timestamp)
  | negsuc t ↦ false
]

abbrev pub file_name : Str → Str
file_name key = key ++ str ".json"

-- element.Value for the pointer `r`
pub find_ref : ℕ → List Element → Option Element
find_ref r [] = none
find_ref r (e ∷ es) = if e.ref == r then some e else find_ref r es

-- list.Remove
pub remove_ref : ℕ → List Element → List Element
remove_ref r [] = []
remove_ref r (e ∷ es) = if e.ref == r then es else e ∷ remove_ref r es

pub new_memory_cache_with_size : ℤ → FileCache
new_memory_cache_with_size max_size = record {
  dir = [];
  in_memory = [];
  lru_list = [];
  max_size = max_size;
  persisted = false;
  next_ref = 0;
}

pub new_memory_cache : FileCache
unfolding new_memory_cache_with_size
new_memory_cache = new_memory_cache_with_size (pos 0)

-- lruList.PushFront and the entry of the key map.
pub push_front : FileCache → Str → CacheItem → FileCache
push_front c key item = record c {
  in_memory = put key c.next_ref c.in_memory;
  lru_list = record { ref = c.next_ref; key = key; item = item } ∷ c.lru_list;
  next_ref = suc c.next_ref;
}

-- What os.Remove answers: none, or an error that is not "does not exist".
abbrev pub Removal : Type 0
Removal = Str → Option Str

abbrev pub file_removed : FileCache → Str → Option Str → FileCache × Option Str
file_removed c key none = (record c { dir = delete (file_name key) c.dir }, none)
file_removed c key (some e) = (c, some e)

-- The file goes, unless the removal fails or the cache is not persisted.
pub remove_file : FileCache → Removal → Str → FileCache × Option Str
remove_file c removal key =
    if c.persisted then file_removed c key (removal (file_name key)) else (c, none)

pub data Found (D : Type 0) : Type 0 where
  miss : Found D
  hit : D → Found D
  remove_failed : Str → Found D
  unmarshal_failed : Found D

abbrev pub missed {ℓ} : {D : Type 0} {C : Type ℓ} → C × Option Str → C × Found D
missed (c, none) = (c, miss)
missed (c, some e) = (c, remove_failed e)

abbrev pub decoded : {D : Type 0} → Option D → Found D
decoded none = unmarshal_failed
decoded (some d) = hit d

-- The element leaves the list and the key map.
pub drop_element : FileCache → Str → ℕ → FileCache
unfolding remove_ref
drop_element c key r = record c {
  lru_list = remove_ref r c.lru_list;
  in_memory = delete key c.in_memory;
}

-- A hit moves the element to the front before its data are decoded.
pub get_element :
    {D : Type 0}
    → FileCache
    → (Str → Option D)
    → Removal
    → Str
    → ℕ
    → Option Element
    → FileCache × Found D
unfolding expired drop_element remove_file
get_element c unmarshal removal key now none = (c, miss)
get_element c unmarshal removal key now (some e) =
    if expired now e.item then missed (remove_file (drop_element c key e.ref) removal key) else (
      record c { lru_list = e ∷ remove_ref e.ref c.lru_list },
      decoded (unmarshal e.item.contents),
    )

abbrev pub deref : List Element → Option ℕ → Option Element
deref es none = none
deref es (some r) = find_ref r es

-- element, exists := c.inMemory[key]
abbrev pub element_of : FileCache → Str → Option Element
element_of c key = deref c.lru_list (get key c.in_memory)

-- Get
pub get_item : {D : Type 0} → FileCache → (Str → Option D) → Removal → Str → ℕ → FileCache × Found D
unfolding get_element find_ref
get_item c unmarshal removal key now = get_element c unmarshal removal key now (element_of c key)

-- lruList.Back()
pub back : List Element → Option Element
back [] = none
back (e ∷ []) = some e
back (e ∷ x ∷ es) = back (x ∷ es)

-- An error of the file's removal is only logged.
pub evict_element : FileCache → Removal → Option Element → FileCache
unfolding drop_element remove_file
evict_element c removal none = c
evict_element c removal (some e) = (remove_file (drop_element c e.key e.ref) removal e.key).0

pub evict_lru : FileCache → Removal → FileCache
unfolding evict_element back
evict_lru c removal = evict_element c removal (back c.lru_list)

pub over_cap : ℕ → ℤ → Bool
over_cap len (pos n) = ltb 0 n && ltb n len
over_cap len (negsuc n) = false

pub store_element : FileCache → Removal → Str → CacheItem → Option Element → FileCache
unfolding push_front evict_lru over_cap remove_ref
store_element c removal key item (some e) = record c {
  lru_list = record e { item = item } ∷ remove_ref e.ref c.lru_list;
}
store_element c removal key item none =
    let c' = push_front c key item in
    if over_cap (length c'.lru_list) c'.max_size then evict_lru c' removal else c'

pub data SetError : Type 0 where
  marshal_failed : SetError
  write_failed : Str → SetError

-- What os.WriteFile answers.
abbrev pub Writing : Type 0
Writing = Str → Option Str

abbrev pub file_written : FileCache → Str → CacheItem → Option Str → FileCache × Option SetError
file_written c key item none = (record c { dir = put (file_name key) (file item) c.dir }, none)
file_written c key item (some e) = (c, some (write_failed e))

pub write_file : FileCache → Writing → Str → CacheItem → FileCache × Option SetError
write_file c writing key item =
    if c.persisted then file_written c key item (writing (file_name key)) else (c, none)

abbrev pub minus : ℕ → ℤ
minus zero = pos 0
minus (suc n) = negsuc n

-- int64(ttl.Seconds()) for nanoseconds: whole seconds, cut off towards zero. The rounding of float64, which
-- shows for a fraction next to a whole second in a time of months, is left out.
abbrev pub seconds_of : ℤ → ℤ
seconds_of (pos n) = pos (n / 1000000000)
seconds_of (negsuc n) = minus (suc n / 1000000000)

-- Set; `encoded` is what json.Marshal makes of the data. The marshalling of the item itself, a record
-- of text and numbers, does not fail.
pub set_item :
    FileCache → Removal → Writing → Str → Option Str → ℤ → ℕ → FileCache × Option SetError
unfolding store_element write_file find_ref
set_item c removal writing key none ttl now = (c, some marshal_failed)
set_item c removal writing key (some encoded) ttl now =
    let item : CacheItem = record { contents = encoded; timestamp = now; ttl = seconds_of ttl } in
    write_file (store_element c removal key item (element_of c key)) writing key item

pub delete_element : FileCache → Str → Option Element → FileCache
unfolding drop_element
delete_element c key none = c
delete_element c key (some e) = drop_element c key e.ref

-- Delete
pub delete_item : FileCache → Removal → Str → FileCache × Option Str
unfolding delete_element remove_file find_ref
delete_item c removal key = remove_file (delete_element c key (element_of c key)) removal key
