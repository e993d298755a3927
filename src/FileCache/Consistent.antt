-- ===== src/FileCache/Consistent.antt =====
-- The key map and the recency list agree, through every operation.
use pvetui.Base.{
  ℕ, ◌∷◌, Option, none, some, Str, str_eq_iff, str_eq_refl, length, ◌≡◌, refl, arith, inl, inr,
  Bool-cases, Option-cases, ◌∙◌, sym, get, get-put, get-delete, ℤ,
}
use pvetui.FileCache.{
  Element, CacheItem, FileCache, Removal, Writing, missed, remove_ref, back, element_of,
  drop_element, push_front, remove_file, get_element, get_item, evict_element, evict_lru,
  store_element, write_file, set_item, delete_element, delete_item, expired, over_cap,
}
use pvetui.FileCache.Elements.{
  find_key, remove_key, AllDistinct, RefsBelow, find_key-named, find_ref-find_key,
  remove_ref-remove_key, find_key-remove_key, remove_key-AllDistinct, remove_key-RefsBelow,
  RefsBelow-suc, find_ref-fresh, find_key-RefsBelow, find_key-back, find_ref-removed,
}

abbrev pub ref_of : Option Element → Option ℕ
ref_of none = none
ref_of (some e) = some e.ref

pub record IsConsistent (c : FileCache) : Type 0 where
  pub agrees : (k : Str) → get k c.in_memory ≡ ref_of (find_key k c.lru_list)
  pub distinct : AllDistinct c.lru_list
  pub fresh : RefsBelow c.next_ref c.lru_list

-- The pointer in the key map leads to the element of that key.
pub element_of-find_key :
    (c : FileCache) (k : Str) → IsConsistent c → element_of c k ≡ find_key k c.lru_list
element_of-find_key c k v = elim (Option-cases (find_key k c.lru_list)) [
  | inl e ↦ rw (v.agrees k, e)
  | inr (x, e) ↦ rw (v.agrees k, e) (find_ref-find_key k c.lru_list x v.distinct e)
]

-- Only the map, the list and the next pointer matter.
same-IsConsistent :
    (c d : FileCache)
    → d.in_memory ≡ c.in_memory
    → d.lru_list ≡ c.lru_list
    → d.next_ref ≡ c.next_ref
    → IsConsistent c
    → IsConsistent d
same-IsConsistent c d m l n v = record {
  agrees = λ k. rw (m, l) (v.agrees k);
  distinct = rw l (v.distinct);
  fresh = rw (l, n) (v.fresh);
}

pub remove_file-IsConsistent :
    (c : FileCache) (removal : Removal) (k : Str)
    → IsConsistent c
    → IsConsistent (remove_file c removal k).0
unfolding remove_file
remove_file-IsConsistent c removal k v =
    same-IsConsistent c (remove_file c removal k).0 (ground arith) (ground arith) (ground arith) v

pub drop_element-IsConsistent :
    (c : FileCache) (k : Str) (e : Element)
    → IsConsistent c
    → find_key k c.lru_list ≡ some e
    → IsConsistent (drop_element c k e.ref)
unfolding drop_element
drop_element-IsConsistent c k e v found = record {
  agrees = λ j. rw same (
      ground (
        arith,
        get-delete k j c.in_memory,
        find_key-remove_key k j c.lru_list v.distinct,
        v.agrees j,
      ));
  distinct = rw same (remove_key-AllDistinct k c.lru_list v.distinct);
  fresh = rw same (remove_key-RefsBelow k c.next_ref c.lru_list v.fresh);
}
  where
    same : remove_ref e.ref c.lru_list ≡ remove_key k c.lru_list
    same = remove_ref-remove_key k c.lru_list e v.distinct found

-- The element of a key goes to the front, perhaps with a new item.
moved-IsConsistent :
    (c : FileCache) (k : Str) (e e' : Element)
    → IsConsistent c
    → find_key k c.lru_list ≡ some e
    → e'.key ≡ e.key
    → e'.ref ≡ e.ref
    → IsConsistent (record c { lru_list = e' ∷ remove_ref e.ref c.lru_list })
moved-IsConsistent c k e e' v found same_key same_ref = record {
  agrees = λ j. rw same (
      unfold find_key in
      ground (
        arith,
        find_key-remove_key k j c.lru_list v.distinct,
        v.agrees j,
        named,
        v.agrees k,
        str_eq_iff k j,
        str_eq_refl k,
      ));
  distinct = rw same (
    rw (named, find_key-remove_key k k c.lru_list v.distinct, str_eq_refl k),
    rw same_ref (find_ref-removed k c.lru_list e v.distinct found),
    remove_key-AllDistinct k c.lru_list v.distinct,
  );
  fresh = rw same (
    rw same_ref (find_key-RefsBelow k c.next_ref c.lru_list e v.fresh found),
    remove_key-RefsBelow k c.next_ref c.lru_list v.fresh,
  );
}
  where
    same : remove_ref e.ref c.lru_list ≡ remove_key k c.lru_list
    same = remove_ref-remove_key k c.lru_list e v.distinct found

    named : e'.key ≡ k
    named = same_key ∙ find_key-named k c.lru_list e found

pub missed_fst : (D : Type 0) (r : FileCache × Option Str) → (missed {D = D} r).0 ≡ r.0
missed_fst D (c, none) = refl
missed_fst D (c, some e) = refl

pub get_item-IsConsistent :
    {D : Type 0} (c : FileCache) (unmarshal : Str → Option D) (removal : Removal) (k : Str)
    (now : ℕ)
    → IsConsistent c
    → IsConsistent (get_item c unmarshal removal k now).0
unfolding get_item get_element
get_item-IsConsistent {D} c unmarshal removal k now v =
    rw (element_of-find_key c k v) (elim (Option-cases (find_key k c.lru_list)) [
      | inl e ↦ rw e v
      | inr (x, e) ↦ rw e (elim (Bool-cases (expired now x.item)) [
        | inr n ↦ rw n (moved-IsConsistent c k x x v e refl refl)
        | inl y ↦ rw y (
            rw (missed_fst D (remove_file (drop_element c k x.ref) removal k))
              (remove_file-IsConsistent _ removal k (drop_element-IsConsistent c k x v e)))
      ])
    ])

pub push_front-IsConsistent :
    (c : FileCache) (k : Str) (item : CacheItem)
    → IsConsistent c
    → find_key k c.lru_list ≡ none
    → IsConsistent (push_front c k item)
unfolding push_front find_key
push_front-IsConsistent c k item v absent = record {
  agrees = λ j. ground (arith, get-put k j c.next_ref c.in_memory, v.agrees j);
  distinct = (absent, find_ref-fresh c.next_ref c.lru_list v.fresh, v.distinct);
  fresh = (omega arith, RefsBelow-suc c.next_ref c.lru_list v.fresh);
}

pub evict_lru-IsConsistent :
    (c : FileCache) (removal : Removal) → IsConsistent c → IsConsistent (evict_lru c removal)
unfolding evict_lru evict_element
evict_lru-IsConsistent c removal v = elim (Option-cases (back c.lru_list)) [
  | inl e ↦ rw e v
  | inr (x, e) ↦ rw e (
      remove_file-IsConsistent _ removal x.key
        (drop_element-IsConsistent c x.key x v (find_key-back c.lru_list x v.distinct e)))
]

store_element-IsConsistent :
    (c : FileCache) (removal : Removal) (k : Str) (item : CacheItem) (o : Option Element)
    → IsConsistent c
    → find_key k c.lru_list ≡ o
    → IsConsistent (store_element c removal k item o)
unfolding store_element
store_element-IsConsistent c removal k item (some e) v h =
    moved-IsConsistent c k e (record e { item = item }) v h refl refl
store_element-IsConsistent c removal k item none v h =
    elim (Bool-cases
      (over_cap (length (push_front c k item).lru_list) (push_front c k item).max_size)) [
        | inl y ↦ rw y (evict_lru-IsConsistent _ removal (push_front-IsConsistent c k item v h))
        | inr n ↦ rw n (push_front-IsConsistent c k item v h)
      ]

write_file-IsConsistent :
    (c : FileCache) (writing : Writing) (k : Str) (item : CacheItem)
    → IsConsistent c
    → IsConsistent (write_file c writing k item).0
unfolding write_file
write_file-IsConsistent c writing k item v =
    same-IsConsistent c (write_file c writing k item).0 (ground arith) (ground arith) (ground arith)
      v

pub set_item-IsConsistent :
    (c : FileCache) (removal : Removal) (writing : Writing) (k : Str) (encoded : Option Str)
    (ttl : ℤ) (now : ℕ)
    → IsConsistent c
    → IsConsistent (set_item c removal writing k encoded ttl now).0
unfolding set_item
set_item-IsConsistent c removal writing k none ttl now v = v
set_item-IsConsistent c removal writing k (some encoded) ttl now v =
    write_file-IsConsistent _ writing k _ (
      store_element-IsConsistent c removal k _ (element_of c k) v (sym (element_of-find_key c k v)))

pub delete_item-IsConsistent :
    (c : FileCache) (removal : Removal) (k : Str)
    → IsConsistent c
    → IsConsistent (delete_item c removal k).0
unfolding delete_item delete_element
delete_item-IsConsistent c removal k v =
    rw (element_of-find_key c k v) (elim (Option-cases (find_key k c.lru_list)) [
      | inl e ↦ rw e (remove_file-IsConsistent c removal k v)
      | inr (x, e) ↦
          rw e (remove_file-IsConsistent _ removal k (drop_element-IsConsistent c k x v e))
    ])
