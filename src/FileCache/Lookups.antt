-- ===== src/FileCache/Lookups.antt =====
-- What Get returns after Set, Delete and eviction.
use pvetui.Base.{
  ℕ, suc, List, [], ◌∷◌, Option, none, some, true, false, Str, str_eq, str_eq_iff, str_eq_refl,
  length, if◌then◌else◌, ◌≡◌, refl, arith, ◌⊎◌, inl, inr, Bool-cases, ◌∙◌, sym, ap, ℤ, pos, negsuc,
}
use pvetui.FileCache.{
  seconds_of, Element, CacheItem, FileCache, Removal, Writing, Found, miss, decoded, remove_ref,
  back, element_of, drop_element, push_front, remove_file, get_item, get_element, evict_lru,
  store_element, set_item, over_cap, expired, missed,
}
use pvetui.FileCache.Elements.{
  find_key, AllDistinct, find_key-named, remove_ref-remove_key, find_key-remove_key, find_key-back,
}
use pvetui.FileCache.Consistent.{
  IsConsistent, element_of-find_key, push_front-IsConsistent, missed_fst, set_item-IsConsistent,
}
use pvetui.FileCache.Eviction.{
  lru_list-evict_lru, lru_list-remove_file, lru_list-write_file, back-some,
}

-- Where the key has an element that has not expired, Get decodes its contents.
get_item_live :
    {D : Type 0} (c : FileCache) (unmarshal : Str → Option D) (removal : Removal) (k : Str)
    (now : ℕ) (x : Element)
    → IsConsistent c
    → find_key k c.lru_list ≡ some x
    → expired now x.item ≡ false
    → get_item c unmarshal removal k now ≡ (
      record c { lru_list = x ∷ remove_ref x.ref c.lru_list },
      decoded (unmarshal x.item.contents),
    )
unfolding get_item get_element
get_item_live c unmarshal removal k now x v e live = rw (element_of-find_key c k v, e, live)

-- The last element of a list of two or more is not its first.
back-tail :
    (e y : Element) (es : List Element) (x : Element)
    → back (e ∷ y ∷ es) ≡ some x
    → back (y ∷ es) ≡ some x
unfolding back
back-tail e y es x h = h

-- The element that Set leaves under its key.
stored : FileCache → Str → CacheItem → Option Element → Element
stored c k item none = record { ref = c.next_ref; key = k; item = item }
stored c k item (some e) = record e { item = item }

one_fits : (m : ℤ) → over_cap 1 m ≡ true → ⊥
unfolding over_cap
one_fits (pos n) h = ground arith
one_fits (negsuc n) h = cc

pushed-stays :
    (c : FileCache) (removal : Removal) (k : Str) (item : CacheItem)
    → IsConsistent c
    → find_key k c.lru_list ≡ none
    → over_cap (suc (length c.lru_list)) c.max_size ≡ true
    → (es : List Element) → c.lru_list ≡ es
    → find_key k (evict_lru (push_front c k item) removal).lru_list ≡ some (stored c k item none)
pushed-stays c removal k item v absent over [] e = absurd (one_fits c.max_size (rw e at over))
pushed-stays c removal k item v absent over (y ∷ es) e =
    let (x, last) = back-some y es in
    let d : AllDistinct (y ∷ es) = rw e at (v.distinct) in
    let other = not_new x (find_key-back (y ∷ es) x d last) in
    evicted x (unfold push_front back in rw e last) other
  where
    not_new : (x : Element) → find_key x.key (y ∷ es) ≡ some x → str_eq x.key k ≡ false
    not_new x h = ground (arith, str_eq_iff x.key k, rw e at absent, h)

    evicted :
        (x : Element)
        → back (push_front c k item).lru_list ≡ some x
        → str_eq x.key k ≡ false
        → find_key k (evict_lru (push_front c k item) removal).lru_list
          ≡ some (stored c k item none)
    evicted x last other =
        let v' = push_front-IsConsistent c k item v absent in
        rw
          (
            lru_list-evict_lru (push_front c k item) removal x v' last,
            find_key-remove_key x.key k _ v'.distinct,
            other,
          )
          (unfold push_front find_key stored in rw (str_eq_refl k))

stored_found :
    (c : FileCache) (removal : Removal) (k : Str) (item : CacheItem) (o : Option Element)
    → IsConsistent c
    → find_key k c.lru_list ≡ o
    → find_key k (store_element c removal k item o).lru_list ≡ some (stored c k item o)
unfolding store_element
stored_found c removal k item (some e) v h =
    unfold find_key stored in rw (find_key-named k c.lru_list e h, str_eq_refl k)
stored_found c removal k item none v h =
    elim (Bool-cases
      (over_cap (length (push_front c k item).lru_list) (push_front c k item).max_size)) [
        | inl y ↦ rw y (pushed-stays c removal k item v h (unfold push_front in y) c.lru_list refl)
        | inr n ↦ rw n (unfold push_front find_key stored in rw (str_eq_refl k))
      ]

item-stored :
    (c : FileCache) (k : Str) (item : CacheItem) (o : Option Element)
    → (stored c k item o).item ≡ item
unfolding stored
item-stored c k item none = refl
item-stored c k item (some e) = refl

-- In a consistent cache, whatever the limit, the removals and the writes do, what Set has stored is what
-- Get decodes under the same key for as long as the item has not expired by the whole seconds of its ttl.
pub get_item-set_item :
    {D : Type 0} (c : FileCache) (unmarshal : Str → Option D) (removal removal' : Removal)
    (writing : Writing) (k encoded : Str) (ttl : ℤ) (now later : ℕ)
    → IsConsistent c
    → expired later (record { contents = encoded; timestamp = now; ttl = seconds_of ttl }) ≡ false
    → (get_item
        (set_item c removal writing k (some encoded) ttl now).0
        unmarshal
        removal'
        k
        later).1
      ≡ decoded (unmarshal encoded)
get_item-set_item c unmarshal removal removal' writing k encoded ttl now later v live =
    ap (λ r. r.1) (get_item_live _ unmarshal removal' k later (stored c k item o) v' found live')
    ∙ ap (λ (i : CacheItem). decoded (unmarshal i.contents)) (item-stored c k item o)
  where
    item : CacheItem
    item = record { contents = encoded; timestamp = now; ttl = seconds_of ttl }

    o : Option Element
    o = element_of c k

    v' : IsConsistent (set_item c removal writing k (some encoded) ttl now).0
    v' = set_item-IsConsistent c removal writing k (some encoded) ttl now v

    found :
        find_key k (set_item c removal writing k (some encoded) ttl now).0.lru_list
        ≡ some (stored c k item o)
    found =
        unfold set_item in
        rw (lru_list-write_file (store_element c removal k item o) writing k item)
          (stored_found c removal k item o v (sym (element_of-find_key c k v)))

    live' : expired later (stored c k item o).item ≡ false
    live' = rw (item-stored c k item o) live

-- In a consistent cache an item that has expired is a miss, or the error of its file's removal; it leaves the memory, and
-- every other key keeps its element.
get_item-expired :
    {D : Type 0} (c : FileCache) (unmarshal : Str → Option D) (removal : Removal) (k j : Str)
    (now : ℕ) (x : Element)
    → IsConsistent c
    → find_key k c.lru_list ≡ some x
    → expired now x.item ≡ true
    → let r = get_item c unmarshal removal k now in
      (((r.1 ≡ miss) ⊎ ((e : Str) × (r.1 ≡ Found.remove_failed e)))
        × (find_key j r.0.lru_list ≡ (if str_eq k j then none else find_key j c.lru_list)))
unfolding get_item get_element
get_item-expired {D} c unmarshal removal k j now x v e old =
    rw (element_of-find_key c k v, e, old)
      (result (remove_file (drop_element c k x.ref) removal k), kept)
  where
    result :
        (r : FileCache × Option Str)
        → ((missed {D = D} r).1 ≡ miss)
          ⊎ ((e : Str) × ((missed {D = D} r).1 ≡ Found.remove_failed e))
    result (c', none) = inl refl
    result (c', some err) = inr (err, refl)

    kept :
        find_key j (missed {D = D} (remove_file (drop_element c k x.ref) removal k)).0.lru_list
        ≡ (if str_eq k j then none else find_key j c.lru_list)
    kept =
        rw
          (
            missed_fst D (remove_file (drop_element c k x.ref) removal k),
            lru_list-remove_file (drop_element c k x.ref) removal k,
          )
          (unfold drop_element in
            rw (remove_ref-remove_key k c.lru_list x v.distinct e)
              (find_key-remove_key k j c.lru_list v.distinct))
