-- ===== src/Opc/Objects.antt =====
-- OpcS7/OPCRelease/CObject.h and .cpp: objects that count their references, and a growing list of
-- pointers to them.
use edps_plc_data_acquisitio.Base.{
  ℕ, zero, suc, ◌+◌, ◌-◌, ◌%◌, ◌^◌, ◌==◌, ◌&&◌, not, ltb, Bool, true, false, Option, none, some,
  List, [], ◌∷◌, ◌++◌, replicate, get_elem?, set, take, drop, length, if◌then◌else◌,
}
use edps_plc_data_acquisitio.Base.Run.{Run, M, ok, pure, ◌>>=◌, ◌>>◌, get, modify, bad}
pub mod Arrays
pub mod Refines
pub mod Remove
pub mod Owned
pub mod Walk

-- `CCObject` with what a derived class adds; a count is its 32-bit pattern.
pub record Object (A : Type 0) : Type 0 where
  pub ref_count : ℕ
  pub body : A

-- `CCObjectList`. The array holds addresses; an entry that was never written is `none`.
pub record ObjectList : Type 0 where
  pub array : List (Option ℕ)
  pub count : ℕ
  pub ptr : ℕ
  pub max_count : ℕ
  pub add_size : ℕ

-- The objects that are not deleted, by address, and the list.
pub record Held (A : Type 0) : Type 0 where
  pub objects : ℕ → Option (Object A)
  pub list : ObjectList

-- The constructor of the list; the sizes are unsigned.
unfoldable pub new_list : ℕ → ℕ → ObjectList
new_list init_size add_size =
    let max_count = if ltb init_size 1 then 1 else init_size in
    record {
      array = replicate max_count none;
      count = 0;
      ptr = 0;
      max_count = max_count;
      add_size = if ltb add_size 1 then 1 else add_size;
    }

-- The new block, with a copy of the entries in use.
unfoldable pub grow : ObjectList → ObjectList
grow l =
    let max_count = (l.max_count + l.add_size) % 2 ^ 32 in
    record l {
      array = take l.count l.array ++ drop l.count (replicate max_count none);
      max_count = max_count;
    }

abbrev pub change : {A : Type 0} → ℕ → Option (Object A) → Held A → Held A
change p o h = record h { objects = λ q. if q == p then o else h.objects q }

module _ {A : Type 0} where
  -- An access to an object that is deleted is undefined.
  abbrev pub existing : Option (Object A) → M (Held A) (Object A)
  existing none = bad
  existing (some o) = pure o

  abbrev pub object : ℕ → M (Held A) (Object A)
  object p h = existing (h.objects p) h

  unfoldable pub add_ref : ℕ → M (Held A) (Unit {0})
  add_ref p = do
    o ← object p
    modify (change p (some (record o { ref_count = (o.ref_count + 1) % 2 ^ 32 })))

  -- `Release` counts down; at 0 the object is deleted.
  abbrev pub released : Object A → Option (Object A)
  released o =
      let count = (o.ref_count + 2 ^ 32 - 1) % 2 ^ 32 in
      if count == 0 then none else some (record o { ref_count = count })

  abbrev pub is_none : Option (Object A) → Bool
  is_none none = true
  is_none (some o) = false

  abbrev pub entry : Option (Option ℕ) → M (Held A) (Option ℕ)
  entry none = bad
  entry (some e) = pure e

  abbrev pub pointer : Option ℕ → M (Held A) ℕ
  pointer none = bad
  pointer (some p) = pure p

  -- Reading an entry outside the array is undefined, and so is using one that was never written.
  unfoldable pub read_entry : ℕ → M (Held A) (Option ℕ)
  read_entry i h = entry (get_elem? h.list.array i) h

  unfoldable pub write_entry : ℕ → Option ℕ → M (Held A) (Unit {0})
  write_entry i e h =
      if ltb i (length h.list.array)
      then ok tt (record h { list = record h.list { array = set h.list.array i e } })
      else bad h

  unfoldable pub pointer_at : ℕ → M (Held A) ℕ
  pointer_at i = read_entry i >>= pointer

  unfoldable pub add : ℕ → M (Held A) (Unit {0})
  add p = do
    modify (λ h. if h.list.count == h.list.max_count then record h { list = grow h.list } else h)
    h ← get
    write_entry h.list.count (some p)
    modify (λ h'. record h' { list = record h'.list { count = h'.list.count + 1 } })
    add_ref p

  -- The loop of `Remove` from the index `n` on.
  unfoldable pub move_down : (left n : ℕ) → M (Held A) (Unit {0})
  move_down zero n = pure tt
  move_down (suc left) n = do e ← read_entry (n + 1); write_entry n e; move_down left (n + 1)

  -- The entry with one more reference, or NULL.
  unfoldable pub referred : ℕ → M (Held A) (Option ℕ)
  referred i h =
      if ltb i h.list.count then (do p ← pointer_at i; add_ref p; pure (some p)) h else ok none h

  -- `operator[]`.
  unfoldable pub item_at : ℕ → M (Held A) (Option ℕ)
  item_at i = referred i

  unfoldable pub first : M (Held A) (Option ℕ)
  first = modify (λ h. record h { list = record h.list { ptr = 0 } }) >> referred 0

  unfoldable pub next : M (Held A) (Option ℕ)
  next = do
    modify (λ h. record h { list = record h.list { ptr = (h.list.ptr + 1) % 2 ^ 32 } })
    h ← get
    referred h.list.ptr

  -- `can_end` tells whether the destructor of a derived class is defined for what it adds.
  module _ (can_end : A → Bool) where
    unfoldable pub release : ℕ → M (Held A) (Unit {0})
    release p = do
      o ← object p
      if is_none (released o) && not (can_end o.body) then bad else pure tt
      modify (change p (released o))

    unfoldable pub remove : ℕ → M (Held A) Bool
    remove i h =
        if ltb i h.list.count
        then (do
          p ← pointer_at i
          release p
          move_down (h.list.count - i) i
          modify (λ h'. record h' { list = record h'.list { count = h'.list.count - 1 } })
          pure true)
            h
        else ok false h

    unfoldable pub release_from : (left i : ℕ) → M (Held A) (Unit {0})
    release_from zero i = pure tt
    release_from (suc left) i = do p ← pointer_at i; release p; release_from left (i + 1)

    -- The destructor of the list.
    unfoldable pub delete_list : M (Held A) (Unit {0})
    delete_list = do h ← get; release_from h.list.count 0
