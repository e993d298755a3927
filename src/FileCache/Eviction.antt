-- ===== src/FileCache/Eviction.antt =====
-- The size limit: what Set evicts, and how long the list gets.
use pvetui.Base.{
  ℕ, suc, ◌+◌, ◌≤◌, List, [], ◌∷◌, Option, none, some, false, Str, length, if◌then◌else◌, ◌≡◌, refl,
  arith, inl, inr, Bool-cases, Option-cases, ◌∙◌, ap, is_some, get, ℤ,
}
use pvetui.FileCache.{
  seconds_of, Element, CacheItem, FileCache, Removal, Writing, remove_ref, back, element_of,
  drop_element, push_front, remove_file, get_item, get_element, evict_element, evict_lru,
  store_element, write_file, set_item, delete_item, delete_element, over_cap, expired,
}
use pvetui.FileCache.Elements.{
  find_key, remove_key, remove_ref-remove_key, find_key-back, length-remove_key,
}
use pvetui.FileCache.Consistent.{
  IsConsistent, element_of-find_key, push_front-IsConsistent, missed_fst,
}

pub back-some : (e : Element) (es : List Element) → (x : Element) × (back (e ∷ es) ≡ some x)
unfolding back
back-some e [] = (e, refl)
back-some e (y ∷ es) = back-some y es

pub lru_list-remove_file :
    (c : FileCache) (removal : Removal) (k : Str)
    → (remove_file c removal k).0.lru_list ≡ c.lru_list
unfolding remove_file
lru_list-remove_file c removal k = ground arith

pub lru_list-write_file :
    (c : FileCache) (writing : Writing) (k : Str) (item : CacheItem)
    → (write_file c writing k item).0.lru_list ≡ c.lru_list
unfolding write_file
lru_list-write_file c writing k item = ground arith

-- What eviction leaves: the list without the key of its last element.
pub lru_list-evict_lru :
    (c : FileCache) (removal : Removal) (x : Element)
    → IsConsistent c
    → back c.lru_list ≡ some x
    → (evict_lru c removal).lru_list ≡ remove_key x.key c.lru_list
unfolding evict_lru evict_element drop_element
lru_list-evict_lru c removal x v e = rw e (
    lru_list-remove_file _ removal x.key
    ∙ remove_ref-remove_key x.key c.lru_list x v.distinct (find_key-back c.lru_list x v.distinct e))

length-evict_lru :
    (c : FileCache) (removal : Removal) (x : Element)
    → IsConsistent c
    → back c.lru_list ≡ some x
    → length c.lru_list ≡ length (evict_lru c removal).lru_list + 1
length-evict_lru c removal x v e =
    rw (lru_list-evict_lru c removal x v e)
      (ground (arith, length-remove_key x.key c.lru_list, find_key-back c.lru_list x v.distinct e))

-- The length of the list after Set has stored: unchanged where the key was there, one more where
-- there is room, and unchanged where an element had to go.
pub length-store_element :
    (c : FileCache) (removal : Removal) (k : Str) (item : CacheItem)
    → IsConsistent c
    → length (store_element c removal k item (element_of c k)).lru_list ≡ (
        if is_some (get k c.in_memory)
        then length c.lru_list
        else if over_cap (suc (length c.lru_list)) c.max_size
        then length c.lru_list
        else suc (length c.lru_list))
length-store_element c removal k item v =
    rw (element_of-find_key c k v, v.agrees k)
      (elim (Option-cases (find_key k c.lru_list)) [
        | inr (x, e) ↦ rw e (moved x e)
        | inl e ↦ rw e (pushed e)
      ])
  where
    moved :
        (x : Element)
        → find_key k c.lru_list ≡ some x
        → length (store_element c removal k item (some x)).lru_list ≡ length c.lru_list
    moved x e =
        unfold store_element in
        rw (remove_ref-remove_key k c.lru_list x v.distinct e)
          (ground (arith, length-remove_key k c.lru_list))

    pushed :
        find_key k c.lru_list ≡ none
        → length (store_element c removal k item none).lru_list ≡ (
            if over_cap (suc (length c.lru_list)) c.max_size
            then length c.lru_list
            else suc (length c.lru_list))
    pushed e =
        unfold store_element push_front in
        elim (Bool-cases (over_cap (suc (length c.lru_list)) c.max_size)) [
          | inr n ↦ rw n
          | inl y ↦
              let (x, last) = back-some _ c.lru_list in
              rw y (
                omega
                  (arith, length-evict_lru _ removal x (push_front-IsConsistent c k item v e) last))
        ]

length-set_item :
    (c : FileCache) (removal : Removal) (writing : Writing) (k : Str) (encoded : Str) (ttl : ℤ)
    (now : ℕ)
    → IsConsistent c
    → length (set_item c removal writing k (some encoded) ttl now).0.lru_list ≡ (
        if is_some (get k c.in_memory)
        then length c.lru_list
        else if over_cap (suc (length c.lru_list)) c.max_size
        then length c.lru_list
        else suc (length c.lru_list))
unfolding set_item
length-set_item c removal writing k encoded ttl now v =
    ap length (lru_list-write_file _ writing k _) ∙ length-store_element c removal k _ v

max_size-evict_lru :
    (c : FileCache) (removal : Removal) → (evict_lru c removal).max_size ≡ c.max_size
unfolding evict_lru evict_element drop_element remove_file
max_size-evict_lru c removal = ground arith

max_size-set_item :
    (c : FileCache) (removal : Removal) (writing : Writing) (k : Str) (encoded : Option Str)
    (ttl : ℤ) (now : ℕ)
    → (set_item c removal writing k encoded ttl now).0.max_size ≡ c.max_size
unfolding set_item write_file store_element push_front
max_size-set_item c removal writing k none ttl now = refl
max_size-set_item c removal writing k (some encoded) ttl now = ground (
  arith,
  max_size-evict_lru
      (push_front c k (record { contents = encoded; timestamp = now; ttl = seconds_of ttl }))
      removal,
)

abbrev pub WithinCap : FileCache → Type 0
WithinCap c = over_cap (length c.lru_list) c.max_size ≡ false

-- A shorter list is within the cap too.
over_cap_mono : (m n : ℕ) (cap : ℤ) → m ≤ n → over_cap n cap ≡ false → over_cap m cap ≡ false
unfolding over_cap
over_cap_mono m n cap h k = ground arith

pub set_item-WithinCap :
    (c : FileCache) (removal : Removal) (writing : Writing) (k : Str) (encoded : Option Str)
    (ttl : ℤ) (now : ℕ)
    → IsConsistent c
    → WithinCap c
    → WithinCap (set_item c removal writing k encoded ttl now).0
set_item-WithinCap c removal writing k none ttl now v h = unfold set_item in h
set_item-WithinCap c removal writing k (some encoded) ttl now v h =
    rw
      (
        max_size-set_item c removal writing k (some encoded) ttl now,
        length-set_item c removal writing k encoded ttl now v,
      )
      (ground arith)

length-drop :
    (c : FileCache) (k : Str) (x : Element)
    → IsConsistent c
    → find_key k c.lru_list ≡ some x
    → length (drop_element c k x.ref).lru_list + 1 ≡ length c.lru_list
unfolding drop_element
length-drop c k x v e =
    rw (remove_ref-remove_key k c.lru_list x v.distinct e)
      (ground (arith, length-remove_key k c.lru_list))

max_size-remove_file :
    (c : FileCache) (removal : Removal) (k : Str)
    → (remove_file c removal k).0.max_size ≡ c.max_size
unfolding remove_file
max_size-remove_file c removal k = ground arith

removed-WithinCap :
    (c : FileCache) (removal : Removal) (k j : Str) (x : Element)
    → IsConsistent c
    → find_key k c.lru_list ≡ some x
    → WithinCap c
    → WithinCap (remove_file (drop_element c k x.ref) removal j).0
removed-WithinCap c removal k j x v e h =
    rw
      (
        lru_list-remove_file (drop_element c k x.ref) removal j,
        max_size-remove_file (drop_element c k x.ref) removal j,
      )
      (unfold drop_element in
        over_cap_mono _ (length c.lru_list) c.max_size (omega (arith, shorter)) h)
  where
    shorter : length (remove_ref x.ref c.lru_list) + 1 ≡ length c.lru_list
    shorter = unfold drop_element in length-drop c k x v e

pub delete_item-WithinCap :
    (c : FileCache) (removal : Removal) (k : Str)
    → IsConsistent c
    → WithinCap c
    → WithinCap (delete_item c removal k).0
unfolding delete_item delete_element
delete_item-WithinCap c removal k v h =
    rw (element_of-find_key c k v) (elim (Option-cases (find_key k c.lru_list)) [
      | inl e ↦ rw e (rw (lru_list-remove_file c removal k, max_size-remove_file c removal k) h)
      | inr (x, e) ↦ rw e (removed-WithinCap c removal k k x v e h)
    ])

pub get_item-WithinCap :
    {D : Type 0} (c : FileCache) (unmarshal : Str → Option D) (removal : Removal) (k : Str)
    (now : ℕ)
    → IsConsistent c
    → WithinCap c
    → WithinCap (get_item c unmarshal removal k now).0
unfolding get_item get_element
get_item-WithinCap {D} c unmarshal removal k now v h =
    rw (element_of-find_key c k v) (elim (Option-cases (find_key k c.lru_list)) [
      | inl e ↦ rw e h
      | inr (x, e) ↦ rw e (elim (Bool-cases (expired now x.item)) [
        | inr n ↦ rw n (over_cap_mono _ (length c.lru_list) c.max_size (omega (arith, moved x e)) h)
        | inl y ↦ rw y (
            rw (missed_fst D (remove_file (drop_element c k x.ref) removal k))
              (removed-WithinCap c removal k k x v e h))
      ])
    ])
  where
    moved :
        (x : Element)
        → find_key k c.lru_list ≡ some x
        → length (remove_ref x.ref c.lru_list) + 1 ≡ length c.lru_list
    moved x e = unfold drop_element in length-drop c k x v e
