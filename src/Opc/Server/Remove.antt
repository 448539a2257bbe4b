-- ===== src/Opc/Server/Remove.antt =====
-- OpcS7/OPCRelease/OPCDAServer.cpp: `RemoveGroup` and `RemoveGroups`.
use edps_plc_data_acquisitio.Base.{
  ℕ, zero, suc, ◌+◌, ◌==◌, Bool, true, false, Option, none, some, Bytes, if◌then◌else◌,
}
use edps_plc_data_acquisitio.Base.Run.{M, ok, out_of_fuel, pure, ◌>>=◌, ◌>>◌, get, modify}
use edps_plc_data_acquisitio.Opc.Items.{failed}
use edps_plc_data_acquisitio.Opc.Objects.{object, release, remove, first, next, delete_list}
use edps_plc_data_acquisitio.Opc.Group.{Group, Com, can_end, detouch}
use edps_plc_data_acquisitio.Opc.Server.{Server, on_world, on_groups, get_group_by_name}

-- `OPC_S_INUSE`.
abbrev pub opc_s_inuse : ℕ
opc_s_inuse = 0x0004_000f

module _ {W : Type 0} (api : Com W) where
  -- `Detouch` of the group at an address.
  unfoldable pub detouch_group : ℕ → M (Server W) Group
  detouch_group p = do
    o ← on_groups (object p)
    s ← get
    modify (λ s'. record s' {
      objects = λ q.
          if q == p
          then some (record o { body = (detouch api o.body s.world).0 })
          else s'.objects q;
      world = (detouch api o.body s.world).1;
    })
    pure o.body

  -- The server is asked twice where the group is in use.
  unfoldable pub remove_from_server : ℕ → M (Server W) (Unit {0})
  remove_from_server h_server = do
    hr ← on_world (api.remove_group h_server false)
    hr' ← if hr == opc_s_inuse then on_world (api.remove_group h_server true) else pure hr
    modify (λ s. record s { hr_last = hr' })

  unfoldable pub remove_group : Bytes → M (Server W) Bool
  remove_group name = do
    (found, pos) ← get_group_by_name api name
    elim found [
      | none ↦ pure true
      | some p ↦ do
        g ← detouch_group p
        remove_from_server g.h_server
        on_groups (release can_end p)
        s ← get
        if failed s.hr_last then pure false else (on_groups (remove can_end pos) >> pure true)
    ]

  unfoldable pub remove_each : ℕ → Option ℕ → M (Server W) (Unit {0})
  remove_each fuel none = pure tt
  remove_each zero (some p) = λ s. out_of_fuel
  remove_each (suc fuel) (some p) = do
    g ← detouch_group p
    on_world (λ w. (tt, (api.remove_group g.h_server false w).1))
    on_groups (release can_end p)
    q ← on_groups next
    remove_each fuel q

  unfoldable pub remove_groups : M (Server W) (Unit {0})
  remove_groups s = elim s.groups [
    | none ↦ ok tt s
    | some l ↦
        (do
          p ← on_groups first
          remove_each (l.count + 1) p
          on_groups (delete_list can_end)
          modify (λ s'. record s' { groups = none }))
          s
  ]
