-- ===== src/FileCache/History.antt =====
-- The cache after any sequence of calls.
use pvetui.Base.{
  ℕ, List, [], ◌∷◌, Option, Str, refl, arith, ℤ, get, Dict, some, none, Bool-cases, inl, inr, ◌≡◌,
}
use pvetui.FileCache.{
  FileCache, DirEntry, Removal, Writing, get_item, set_item, delete_item,
  new_memory_cache_with_size, over_cap,
}
use pvetui.FileCache.Consistent.{
  IsConsistent, get_item-IsConsistent, set_item-IsConsistent, delete_item-IsConsistent,
}
use pvetui.FileCache.Loading.{clear}
use pvetui.FileCache.Eviction.{
  WithinCap, get_item-WithinCap, set_item-WithinCap, delete_item-WithinCap,
}
use pvetui.FileCache.Elements.{find_key}

-- A call with what the clock, the file system and JSON answered.
pub data Call : Type 0 where
  gets : (Str → Option Str) → Removal → Str → ℕ → Call
  sets : Removal → Writing → Str → Option Str → ℤ → ℕ → Call
  deletes : Removal → Str → Call
  clears : Removal → Option (Dict DirEntry) → Call

pub apply : FileCache → Call → FileCache
unfolding get_item set_item delete_item clear
apply c (gets unmarshal removal key now) = (get_item c unmarshal removal key now).0
apply c (sets removal writing key encoded ttl now) =
    (set_item c removal writing key encoded ttl now).0
apply c (deletes removal key) = (delete_item c removal key).0
apply c (clears removal listed) = (clear c removal listed).0

unfoldable pub history : FileCache → List Call → FileCache
unfolding apply new_memory_cache_with_size
history c [] = c
history c (call ∷ calls) = history (apply c call) calls

pub record IsSound (c : FileCache) : Type 0 where
  pub consistent : IsConsistent c
  pub within : WithinCap c

-- What Clear leaves has nothing in memory, whatever becomes of the files.
emptied-IsSound : (c : FileCache) → (c.in_memory ≡ []) → (c.lru_list ≡ []) → IsSound c
unfolding get find_key over_cap
emptied-IsSound c m l = record {
  consistent = record { agrees = λ k. rw (m, l) refl; distinct = rw l tt; fresh = rw l tt };
  within = rw l (ground arith);
}

clear_empties :
    (c : FileCache) (removal : Removal) (listed : Option (Dict DirEntry))
    → ((clear c removal listed).0.in_memory ≡ []) × ((clear c removal listed).0.lru_list ≡ [])
unfolding clear
clear_empties c removal none = elim (Bool-cases c.persisted) [
  | inl y ↦ rw y (refl, refl)
  | inr n ↦ rw n (refl, refl)
]
clear_empties c removal (some files) = elim (Bool-cases c.persisted) [
  | inl y ↦ rw y (refl, refl)
  | inr n ↦ rw n (refl, refl)
]

apply-IsSound : (c : FileCache) (call : Call) → IsSound c → IsSound (apply c call)
unfolding apply
apply-IsSound c (gets unmarshal removal key now) s = record {
  consistent = get_item-IsConsistent c unmarshal removal key now s.consistent;
  within = get_item-WithinCap c unmarshal removal key now s.consistent s.within;
}
apply-IsSound c (sets removal writing key encoded ttl now) s = record {
  consistent = set_item-IsConsistent c removal writing key encoded ttl now s.consistent;
  within = set_item-WithinCap c removal writing key encoded ttl now s.consistent s.within;
}
apply-IsSound c (deletes removal key) s = record {
  consistent = delete_item-IsConsistent c removal key s.consistent;
  within = delete_item-WithinCap c removal key s.consistent s.within;
}
apply-IsSound c (clears removal listed) s =
    let (m, l) = clear_empties c removal listed in emptied-IsSound (clear c removal listed).0 m l

history-IsSound_from : (c : FileCache) (calls : List Call) → IsSound c → IsSound (history c calls)
unfolding history
history-IsSound_from c [] s = s
history-IsSound_from c (call ∷ calls) s =
    history-IsSound_from (apply c call) calls (apply-IsSound c call s)

new-IsSound : (max_size : ℤ) → IsSound (new_memory_cache_with_size max_size)
unfolding new_memory_cache_with_size get find_key over_cap
new-IsSound max_size = record {
  consistent = record { agrees = λ k. refl; distinct = tt; fresh = tt };
  within = ground arith;
}

-- After any calls of Get, Set, Delete and Clear on a new in-memory cache of any size limit, whatever the clock
-- and the file system answer, the key map and the recency list hold the same elements under the same
-- keys, each key once, and no more of them than the limit allows.
pub history-IsSound :
    (max_size : ℤ) (calls : List Call)
    → IsSound (history (new_memory_cache_with_size max_size) calls)
history-IsSound max_size calls =
    history-IsSound_from (new_memory_cache_with_size max_size) calls (new-IsSound max_size)
