-- ===== src/FileCache/Tests.antt =====
-- Runs of the cache at concrete inputs, and the theorems applied there.
use pvetui.Base.{
  List, [], ◌∷◌, Option, none, some, true, false, Str, str, str_eq, ◌≡◌, refl, pos, get, put,
  length, delete, Dict,
}
use pvetui.FileCache.{
  FileCache, Element, Removal, Writing, miss, hit, decoded, DirEntry, file, directory, get_item,
  set_item, new_memory_cache_with_size, over_cap, expired,
}
use pvetui.FileCache.Elements.{find_key}
use pvetui.FileCache.Lookups.{get_item-set_item}
use pvetui.FileCache.Loading.{
  new_file_cache_with_size, new_file_cache_overfull, live_files, clear, strip_json,
}
use pvetui.FileCache.History.{Call, sets, IsSound, history, history-IsSound}

abbrev all_removed : Removal
all_removed name = none

abbrev all_written : Writing
all_written name = none

abbrev raw : Str → Option Str
raw s = some s

abbrev two_sets : List Call
two_sets =
    sets all_removed all_written (str "a") (some (str "1")) (pos 60000000000) 100
    ∷ sets all_removed all_written (str "b") (some (str "2")) (pos 60000000000) 101
    ∷ []

-- A cache for one item that has seen two: the first is evicted.
abbrev small : FileCache
small = history (new_memory_cache_with_size (pos 1)) two_sets

small_gets :
    ((get_item small raw all_removed (str "a") 110).1 ≡ miss)
    × ((get_item small raw all_removed (str "b") 110).1 ≡ hit (str "2"))
unfolding history get_item set_item get put delete str_eq
small_gets = (refl, refl)

history-IsSound_example : IsSound small
history-IsSound_example = history-IsSound (pos 1) two_sets

get_item-set_item_example :
    (get_item
      (set_item small all_removed all_written (str "c") (some (str "3")) (pos 60000000000) 200).0
      raw
      all_removed
      (str "c")
      230).1
    ≡ decoded (raw (str "3"))
get_item-set_item_example =
    get_item-set_item small raw all_removed all_removed all_written (str "c") (str "3")
      (pos 60000000000) 200 230 (history-IsSound (pos 1) two_sets).consistent live
  where
    live : expired 230 (record { contents = str "3"; timestamp = 200; ttl = pos 60 }) ≡ false
    live = unfold expired in refl

abbrev element_b : Element
element_b = record {
  ref = 1;
  key = str "b";
  item = record { contents = str "2"; timestamp = 101; ttl = pos 60 };
}

b_is_there : find_key (str "b") small.lru_list ≡ some element_b
unfolding history get_item set_item get put delete str_eq find_key
b_is_there = refl

b_expires : expired 200 element_b.item ≡ true
unfolding expired
b_expires = refl

abbrev listing : Dict DirEntry
listing =
    (str "a.json", file element_b.item)
    ∷ (str "b.json", file element_b.item)
    ∷ (str "notes.txt", file element_b.item)
    ∷ (str "badger", directory)
    ∷ []

-- Two live files in a cache for one item.
abbrev reopened : FileCache
reopened = new_file_cache_with_size listing (some listing) all_removed 150 true (pos 1)

new_file_cache_overfull_example :
    (length reopened.lru_list ≡ live_files 150 listing)
    × (over_cap (length reopened.lru_list) reopened.max_size
        ≡ over_cap (live_files 150 listing) (pos 1))
new_file_cache_overfull_example = new_file_cache_overfull listing listing all_removed 150 (pos 1)

reopened_overfull : over_cap (live_files 150 listing) (pos 1) ≡ true
unfolding over_cap live_files strip_json str_eq expired
reopened_overfull = refl

cleared_without_error : (clear reopened all_removed (some listing)).1 ≡ none
unfolding clear new_file_cache_with_size strip_json str_eq expired
cleared_without_error = refl
