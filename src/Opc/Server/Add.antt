-- ===== src/Opc/Server/Add.antt =====
-- `COpcServer::AddGroup`, and `GetGroupByName` on the server.
use mathlib.Core.Path.{subst}
use edps_plc_data_acquisitio.Base.{
  ℕ, ◌+◌, ◌^◌, ◌<◌, ◌≡◌, refl, sym, ap, ◌∙◌, ◌==◌, ◌&&◌, true, false, Bool, Option, none, some,
  List, [], ◌∷◌, ◌++◌, Bytes, replicate, arith, if◌then◌else◌,
}
use edps_plc_data_acquisitio.Base.Run.{Run, ok, fault, Returns, returns, bind-Returns}
use edps_plc_data_acquisitio.Opc.Items.{failed}
use edps_plc_data_acquisitio.Opc.Objects.{Object, ObjectList, Held, new_list, release}
use edps_plc_data_acquisitio.Opc.Objects.Refines.{Holds, add-Added}
use edps_plc_data_acquisitio.Opc.Objects.Walk.{AllLive, same}
use edps_plc_data_acquisitio.Opc.Group.{
  Group, Com, can_end, is_set, has_items, upload_status, new_group,
}
use edps_plc_data_acquisitio.Opc.Server.{
  Server, back, make_group, make_list, keep_group, get_group_by_name, add_group,
}
use edps_plc_data_acquisitio.Opc.Server.Find.{first_named, given, find_group-first_named}

and_false : (a : Bool) → (a && false) ≡ false
and_false true = refl
and_false false = refl

cannot_end : (g : Group) → g.items ≡ none → can_end g ≡ false
cannot_end g e =
    ap (λ i. is_set g.un_group && is_set g.items_mgt && is_set g.sync_io && has_items i) e
    ∙ and_false _

-- The list of groups, made where there is none.
abbrev pub listed : Option ObjectList → ObjectList
listed none = new_list 10 5
listed (some l) = l

-- The groups are `xs`; none before the list is made, and the array can grow.
abbrev pub Listed : Option ObjectList → List ℕ → Type 0
Listed none xs = xs ≡ []
Listed (some l) xs = Holds l xs × (l.max_count + l.add_size < 2 ^ 32)

pub Listed-Holds :
    (g : Option ObjectList) (xs : List ℕ)
    → Listed g xs
    → Holds (listed g) xs × ((listed g).max_count + (listed g).add_size < 2 ^ 32)
unfolding new_list
Listed-Holds none xs e = (
  subst (λ l. Holds (new_list 10 5) l) (sym e)
      (record {
        rest = replicate 10 none;
        slots = refl;
        counted = refl;
        sized = refl;
        grows = omega arith;
        small = omega arith;
      }),
  omega arith,
)
Listed-Holds (some l) xs h = h

module _ {W : Type 0} where
  -- The server's list stands for the addresses.
  abbrev pub HasGroups : Server W → List ℕ → Type 0
  HasGroups s xs = (l : ObjectList) × (s.groups ≡ some l) × Holds l xs

  -- The group that was built is behind the others of the list; it has two references, that of the
  -- list and that of the caller, and the other objects are as they were. The server stays connected, and
  -- the next address is the one behind.
  pub record Kept (objects : ℕ → Option (Object Group)) (p : ℕ) (xs : List ℕ) (g : Group)
      (s' : Server W) : Type 0 where
    pub listed : HasGroups s' (xs ++ p ∷ [])
    pub counted : s'.objects p ≡ some (record { ref_count = 2; body = g })
    pub others : (q : ℕ) → (q == p) ≡ false → s'.objects q ≡ objects q
    pub next_address : s'.fresh ≡ p + 1
    pub online : s'.connected ≡ true

module _ {W : Type 0} (api : Com W) where
  pub back-Returns :
      {A : Type 0} {P : A → Held Group → Type 0} {Q : A → Server W → Type 0} (s : Server W)
      {r : Run (Held Group) A}
      → Returns P r
      → ((a : A) (h : Held Group)
          → P a h
          → Q a (record s { groups = some h.list; objects = h.objects }))
      → Returns Q (back s r)
  back-Returns s (returns p) next = returns (next _ _ p)

  -- Where the objects of the list live, GetGroupByName gives the first of them with the name and its
  -- position, with one more reference, or NULL and the length of the list; the other references and
  -- the list stay.
  pub get_group_by_name-first_named :
      (s : Server W) (name : Bytes) (xs : List ℕ)
      → HasGroups s xs
      → AllLive s.objects xs
      → Returns
          (λ r s'.
            (r ≡ first_named s.objects name xs 0)
            × (s'.objects ≡ given (first_named s.objects name xs 0).0 s.objects)
            × HasGroups s' xs)
          (get_group_by_name api name s)
  unfolding get_group_by_name
  get_group_by_name-first_named s name xs (l, e, hs) live = rw e (
      back-Returns (record s { groups = some l })
        (find_group-first_named (record { objects = s.objects; list = l }) name xs hs live)
        λ r h (r_eq, o_eq, hs', _, _). (r_eq, o_eq, (h.list, refl, hs')))

  -- A constructor that fails leaves the list of items unset.
  new_group_no_items :
      (unk : ℕ) (w : W)
      → failed (new_group api unk w).0.hr_last ≡ true
      → (new_group api unk w).0.items ≡ none
  unfolding new_group upload_status
  new_group_no_items unk w = λ h. ground (arith, h)

  -- One that does not gives a group that can be deleted.
  pub new_group-can_end :
      (unk : ℕ) (w : W)
      → failed (new_group api unk w).0.hr_last ≡ false
      → can_end (new_group api unk w).0 ≡ true
  unfolding new_group upload_status
  new_group-can_end unk w = λ h. ground (arith, h)

  keep_group-Kept :
      (s : Server W) (l : ObjectList) (xs : List ℕ) (unk : ℕ)
      → s.groups ≡ some l
      → s.connected ≡ true
      → Holds l xs
      → l.max_count + l.add_size < 2 ^ 32
      → failed (new_group api unk s.world).0.hr_last ≡ false
      → Returns
          (λ r s'. (r ≡ some s.fresh) × Kept s.objects s.fresh xs (new_group api unk s.world).0 s')
          (keep_group api unk s)
  unfolding keep_group make_group
  keep_group-Kept s l xs unk e online hs fits built =
      rw (e, same s.fresh, built)
        (bind-Returns
          (back-Returns {Q = λ _ s'. Kept s.objects s.fresh xs (new_group api unk s.world).0 s'}
            (record s {
              groups = some l;
              fresh = s.fresh + 1;
              hr_last = (new_group api unk s.world).0.hr_last;
              world = api.release_interface unk (new_group api unk s.world).1;
            })
            (add-Added (record { objects = with_new; list = l }) xs s.fresh first_one hs fits
              (rw (same s.fresh) refl))
            λ _ h (hs', eq). record {
              listed = (h.list, refl, hs');
              counted = ap (λ f. f s.fresh) eq ∙ rw (same s.fresh) refl;
              others = λ q ne. ap (λ f. f q) eq ∙ rw ne refl;
              next_address = refl;
              online = online;
            })
          λ _ s' kept. returns (refl, kept))
    where
      first_one : Object Group
      first_one = record { ref_count = 1; body = (new_group api unk s.world).0 }

      with_new : ℕ → Option (Object Group)
      with_new = λ q. if q == s.fresh then some first_one else s.objects q

  -- Deleting a group that was not built uses members that were never written.
  keep_group_faults :
      (s : Server W) (l : ObjectList) (unk : ℕ)
      → s.groups ≡ some l
      → failed (new_group api unk s.world).0.hr_last ≡ true
      → keep_group api unk s ≡ fault
  unfolding keep_group make_group release
  keep_group_faults s l unk e broken =
      rw (e, same s.fresh, broken, same s.fresh)
        (rw (cannot_end (new_group api unk s.world).0 (new_group_no_items unk s.world broken)) refl)

  pub make_list_lem :
      (s : Server W) → make_list api s ≡ ok tt (record s { groups = some (listed s.groups) })
  unfolding make_list
  make_list_lem s = made s.groups refl
    where
      made :
          (g : Option ObjectList)
          → s.groups ≡ g
          → make_list api s ≡ ok tt (record s { groups = some (listed s.groups) })
      made none e = rw e refl
      made (some l) e = rw e refl

  -- The answer of the server, and the group that the constructor makes of it.
  abbrev pub answer : Server W → Bytes → (ℕ × ℕ) × W
  answer s name = api.add_group name ((listed s.groups).count + 1) s.world

  abbrev pub built : Server W → Bytes → Group
  built s name = (new_group api (answer s name).0.1 (answer s name).1).0

  module _ (s : Server W) (name : Bytes) (xs : List ℕ) (online : s.connected ≡ true)
      (groups : Listed s.groups xs) where
    asked : Server W
    asked = record s {
      connected = true;
      groups = some (listed s.groups);
      hr_last = (answer s name).0.0;
      world = (answer s name).1;
    }

    -- Where the server grants the group and its constructor does not fail, AddGroup on a connected
    -- server gives the new group with two references, behind the others of the list, and leaves the
    -- other objects as they were.
    pub add_group-Kept :
        failed (answer s name).0.0 ≡ false
        → failed (built s name).hr_last ≡ false
        → Returns
            (λ r s'. (r ≡ some s.fresh) × Kept s.objects s.fresh xs (built s name) s')
            (add_group api name s)
    unfolding add_group asked
    add_group-Kept granted whole =
        let (hs, fits) = Listed-Holds s.groups xs groups in
        rw (make_list_lem s, online, granted)
          (keep_group-Kept asked (listed s.groups) xs (answer s name).0.1 refl refl hs fits whole)

    -- Where the server grants a group whose constructor fails, AddGroup on a connected server does
    -- not return NULL: deleting the group uses a member that was never written.
    pub add_group_faults :
        failed (answer s name).0.0 ≡ false
        → failed (built s name).hr_last ≡ true
        → add_group api name s ≡ fault
    unfolding add_group asked
    add_group_faults granted broken =
        rw (make_list_lem s, online, granted)
          (keep_group_faults asked (listed s.groups) (answer s name).0.1 refl broken)
