-- ===== src/Opc/Server.antt =====
-- OpcS7/OPCRelease/OPCDAServer.cpp: the groups of an OPC server, `GetGroupByName` and `AddGroup`.
use edps_plc_data_acquisitio.Base.{
  ℕ, zero, suc, ◌+◌, ◌==◌, ◌&&◌, Bool, true, false, Option, none, some, List, [], ◌∷◌, Bytes,
  bytes_eq, if◌then◌else◌,
}
use edps_plc_data_acquisitio.Base.Run.{
  Run, M, ok, fault, out_of_fuel, pure, ◌>>=◌, ◌>>◌, get, modify, bad, and_then,
}
use edps_plc_data_acquisitio.Opc.Items.{OpcItem, failed, s_false}
use edps_plc_data_acquisitio.Opc.Group.{Group, Com, can_end, upload_status, new_group}
use edps_plc_data_acquisitio.Opc.Objects.{
  Object, ObjectList, Held, new_list, object, add_ref, release, add, remove, first, next,
  delete_list,
}
pub mod Add
pub mod Again
pub mod Find
pub mod Remove
pub mod Emptied
pub mod Owns
pub mod Lends
pub mod Upload

-- `COpcServer`, the objects that are not deleted, and the world. `connected` is whether
-- `m_pIOpcServer` is set, and a group list that is NULL is `none`.
pub record Server (W : Type 0) : Type 0 where
  pub connected : Bool
  pub groups : Option ObjectList
  pub objects : ℕ → Option (Object Group)
  pub fresh : ℕ
  pub hr_last : ℕ
  pub world : W

module _ {W : Type 0} where
  abbrev pub on_world : {A : Type 0} → (W → A × W) → M (Server W) A
  on_world f s = let (a, w) = f s.world in ok a (record s { world = w })

  abbrev pub back : {A : Type 0} → Server W → Run (Held Group) A → Run (Server W) A
  back s (ok a h) = ok a (record s { groups = some h.list; objects = h.objects })
  back s fault = fault
  back s out_of_fuel = out_of_fuel

  -- A call of the group list; there is none behind a null pointer.
  abbrev pub on_groups_of : {A : Type 0} → Option ObjectList → M (Held Group) A → M (Server W) A
  on_groups_of none run = bad
  on_groups_of (some l) run = λ s. back s (run (record { objects = s.objects; list = l }))

  abbrev pub on_groups : {A : Type 0} → M (Held Group) A → M (Server W) A
  on_groups run s = on_groups_of s.groups run s

-- The loop of `GetGroupByName`, at the entry that `First` or `Next` gave: the group, with the
-- reference that was taken for it, and its position.
unfoldable pub find_from : (fuel pos : ℕ) → Bytes → Option ℕ → M (Held Group) (Option ℕ × ℕ)
find_from fuel pos name none = pure (none, pos)
find_from zero pos name (some p) = λ h. out_of_fuel
find_from (suc fuel) pos name (some p) = do
  o ← object p
  if bytes_eq o.body.name name
      then pure (some p, pos)
      else (do release can_end p; q ← next; find_from fuel (pos + 1) name q)

-- The search, on as many rounds as the list has entries, and one more.
unfoldable pub find_group : Bytes → M (Held Group) (Option ℕ × ℕ)
find_group name = do h ← get; p ← first; find_from (h.list.count + 1) 0 name p

module _ {W : Type 0} (api : Com W) where
  unfoldable pub get_group_by_name : Bytes → M (Server W) (Option ℕ × ℕ)
  get_group_by_name name s = elim s.groups [
    | none ↦ ok (none, 0) s
    | some l ↦ on_groups (find_group name) s
  ]

  -- `new COPCGroup(pIUnk)` and its first `AddRef`.
  unfoldable pub make_group : ℕ → M (Server W) ℕ
  make_group unk s =
      let (g, w) = new_group api unk s.world in
      ok s.fresh (record s {
        world = w;
        objects =
            λ q. if q == s.fresh then some (record { ref_count = 1; body = g }) else s.objects q;
        fresh = s.fresh + 1;
      })

  unfoldable pub make_list : M (Server W) (Unit {0})
  make_list s = elim s.groups [
    | none ↦ ok tt (record s { groups = some (new_list 10 5) })
    | some l ↦ ok tt s
  ]

  -- A group that the server made goes behind the others, or is deleted where its constructor failed.
  unfoldable pub keep_group : ℕ → M (Server W) (Option ℕ)
  keep_group unk = do
    p ← make_group unk
    on_world (λ w. (tt, api.release_interface unk w))
    o ← on_groups (object p)
    modify (λ s. record s { hr_last = o.body.hr_last })
    if failed o.body.hr_last
        then (on_groups (release can_end p) >> pure none)
        else (on_groups (add p) >> pure (some p))

  unfoldable pub add_group : Bytes → M (Server W) (Option ℕ)
  add_group name s =
      if s.connected
      then (do
        make_list
        l ← on_groups get
        (hr, unk) ← on_world (api.add_group name (l.list.count + 1))
        modify (λ s'. record s' { hr_last = hr })
        if failed hr then pure none else keep_group unk)
          s
      else ok none s
