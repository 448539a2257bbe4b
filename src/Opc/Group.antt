-- ===== src/Opc/Group.antt =====
-- OpcS7/OPCRelease/OPCGroup.h and .cpp: the constructor of a group, its state and `Detouch`.
use edps_plc_data_acquisitio.Base.{
  ℕ, ◌&&◌, Bool, true, false, Option, none, some, List, [], Bytes, if◌then◌else◌,
}
use edps_plc_data_acquisitio.Opc.Items.{OpcItem, failed}

-- A member that points to an interface; `unset` was never written.
pub data Member : Type 0 where
  unset : Member
  null : Member
  interface : ℕ → Member

-- `COPCGroup`. `items` is `none` until the list of items is made.
pub record Group : Type 0 where
  pub un_group : Member
  pub items_mgt : Member
  pub sync_io : Member
  pub items : Option (List OpcItem)
  pub h_server : ℕ
  pub h_client : ℕ
  pub name : Bytes
  pub hr_last : ℕ

-- What `IOPCGroupStateMgt::GetState` gives of a group.
pub record State : Type 0 where
  pub name : Bytes
  pub h_client : ℕ
  pub h_server : ℕ

-- The server and its groups behind COM. A call gives its code first. `query` asks an interface for
-- another, and sets
-- the pointer to NULL where it fails: 0 for IUnknown, 1 for IOPCItemMgt, 2 for IOPCSyncIO and 3 for IOPCGroupStateMgt.
pub record Com (W : Type 0) : Type 0 where
  pub query : ℕ → ℕ → W → (ℕ × ℕ) × W
  pub release_interface : ℕ → W → W
  pub get_state : ℕ → W → (ℕ × State) × W
  -- `IOPCServer::AddGroup` with the name and the client's handle: the code and the new group.
  pub add_group : Bytes → ℕ → W → (ℕ × ℕ) × W
  -- `IOPCServer::RemoveGroup` with the server's handle and whether it is forced.
  pub remove_group : ℕ → Bool → W → ℕ × W
  -- `CreateGroupEnumerator` and the enumerator's `Next`: the code, and the groups in order.
  pub enumerate : W → (ℕ × List ℕ) × W

-- The destructor of a group uses each of these members. What it releases of the server's interfaces
-- is left out.
abbrev pub is_set : Member → Bool
is_set unset = false
is_set null = true
is_set (interface i) = true

abbrev pub has_items : Option (List OpcItem) → Bool
has_items none = false
has_items (some l) = true

abbrev pub can_end : Group → Bool
can_end g = is_set g.un_group && is_set g.items_mgt && is_set g.sync_io && has_items g.items

module _ {W : Type 0} (api : Com W) where
  abbrev pub release_all : Member → W → W
  release_all unset w = w
  release_all null w = w
  release_all (interface i) w = api.release_interface i w

  -- `UploadStatus` on a group with the state's interface.
  unfoldable pub upload_status : ℕ → Group → W → Group × W
  upload_status state g w =
      let ((hr, st), w1) = api.get_state state w in
      (
        record g { name = st.name; h_client = st.h_client; h_server = st.h_server; hr_last = hr },
        w1,
      )

  abbrev pub blank_group : ℕ → Group
  blank_group hr = record {
    un_group = unset;
    items_mgt = unset;
    sync_io = unset;
    items = none;
    h_server = 0;
    h_client = 0;
    name = [];
    hr_last = hr;
  }

  -- The constructor of a group; behind an early return the later members stay as they were.
  unfoldable pub new_group : ℕ → W → Group × W
  new_group unk w =
      let ((hr0, un), w0) = api.query unk 0 w in
      let ((hr1, mgt), w1) = api.query un 1 w0 in
      let ((hr2, sync), w2) = api.query un 2 w1 in
      let ((hr3, state), w3) = api.query un 3 w2 in
      let whole = record (blank_group hr3) {
        un_group = interface un;
        items_mgt = interface mgt;
        sync_io = interface sync;
      } in
      if failed hr0
      then (record (blank_group hr0) { un_group = null }, w0)
      else if failed hr1
      then (
        record (blank_group hr1) { un_group = null; items_mgt = null },
        api.release_interface un w1,
      )
      else if failed hr2
      then (
        record (blank_group hr2) { un_group = null; items_mgt = null; sync_io = null },
        api.release_interface mgt (api.release_interface un w2),
      )
      else if failed hr3
      then (
        record whole { un_group = null; items_mgt = null; sync_io = null },
        api.release_interface sync (api.release_interface mgt (api.release_interface un w3)),
      )
      else (let (g, w4) = upload_status state whole w3 in
          (
            record g { items = some []; hr_last = if failed g.hr_last then 0 else g.hr_last },
            api.release_interface state w4,
          ))

  unfoldable pub detouch : Group → W → Group × W
  detouch g w = (
    record g { un_group = null; items_mgt = null; sync_io = null },
    release_all g.sync_io (release_all g.items_mgt (release_all g.un_group w)),
  )
