-- ===== src/Opc/Server/Upload.antt =====
-- OpcS7/OPCRelease/OPCDAServer.cpp: `UploadGroups`.
use edps_plc_data_acquisitio.Base.{
  ℕ, zero, suc, ◌+◌, ◌==◌, Bool, true, false, Option, none, some, List, [], ◌∷◌, if◌then◌else◌,
}
use edps_plc_data_acquisitio.Base.Run.{M, fault, out_of_fuel, pure, ◌>>=◌, ◌>>◌, get}
use edps_plc_data_acquisitio.Opc.Items.{failed, s_false}
use edps_plc_data_acquisitio.Opc.Objects.{Held, object, release, add, first, next}
use edps_plc_data_acquisitio.Opc.Group.{Group, Com, can_end}
use edps_plc_data_acquisitio.Opc.Server.{Server, on_world, on_groups, make_group, make_list}

-- The loop of `UploadGroups` that looks for a server handle; every reference is given back.
unfoldable pub has_handle : (fuel h_server : ℕ) → Option ℕ → M (Held Group) Bool
has_handle fuel h_server none = pure false
has_handle zero h_server (some p) = λ h. out_of_fuel
has_handle (suc fuel) h_server (some p) = do
  o ← object p
  release can_end p
  if o.body.h_server == h_server then pure true else (next >>= has_handle fuel h_server)

module _ {W : Type 0} (api : Com W) where
  -- A second object for the group goes into the list where it is whole, and its reference is given
  -- back.
  unfoldable pub upload_new : ℕ → M (Server W) (Unit {0})
  upload_new unk = do
    p ← make_group api unk
    o ← on_groups (object p)
    if failed o.body.hr_last then pure tt else on_groups (add p)
    on_groups (release can_end p)

  -- The first object is never released.
  unfoldable pub upload_group : ℕ → M (Server W) (Unit {0})
  upload_group unk = do
    p ← make_group api unk
    o ← on_groups (object p)
    l ← on_groups get
    q ← on_groups first
    found ← on_groups (has_handle (l.list.count + 1) o.body.h_server q)
    if found then pure tt else upload_new unk
    on_world (λ w. (tt, api.release_interface unk w))

  unfoldable pub upload_each : List ℕ → M (Server W) (Unit {0})
  upload_each [] = pure tt
  upload_each (unk ∷ rest) = upload_group unk >> upload_each rest

  unfoldable pub upload_groups : M (Server W) (Unit {0})
  upload_groups s =
      if s.connected
      then (do
        (hr, found) ← on_world api.enumerate
        if failed hr
            then pure tt
            else if hr == s_false
            then pure tt
            else (make_list api >> upload_each found))
          s
      else fault
