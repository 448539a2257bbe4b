-- ===== src/Opc/Globals.antt =====
-- OpcS7/OpcS7.cpp: the global variables of the DLL, what is around it, and the calls of its servers
-- and groups.
use edps_plc_data_acquisitio.Base.{
  ℕ, ◌==◌, Bool, true, false, Option, none, some, List, Bytes, if◌then◌else◌,
}
use edps_plc_data_acquisitio.Base.Run.{Run, M, ok, fault, out_of_fuel, pure, bad}
use edps_plc_data_acquisitio.Opc.Items
use edps_plc_data_acquisitio.Opc.Items.{OpcItem, failed, s_false, read_items, write_items}
use edps_plc_data_acquisitio.Opc.Params.{Ole}
use edps_plc_data_acquisitio.Opc.Register.{Result}
use edps_plc_data_acquisitio.Opc.Objects.{Object, ObjectList, Held, new_list, release}
use edps_plc_data_acquisitio.Opc.Group.{Group, Member, Com, can_end}
use edps_plc_data_acquisitio.Opc.Session.{Session, Activation, no_cookie}

-- What is around the DLL: COM, an `AddItems` and an `IOPCSyncIO` by their interface, OLE, what
-- memory holds, and the names in the ini file.
pub record Around (W : Type 0) : Type 0 where
  pub api : Com W
  pub activation : Activation W
  pub item_mgt : ℕ → List (ℕ × Bytes) → W → (ℕ × List (ℕ × Result)) × W
  pub sync_io : ℕ → Items.Server W
  pub ole : Ole
  pub uninit : ℕ
  pub client_name : Bytes
  pub s7_opc_server : Bytes
  pub emergency_server_node : Bytes

-- A `COpcServer` without what the two of them share.
pub record Client : Type 0 where
  pub connected : Bool
  pub groups : Option ObjectList
  pub hr_last : ℕ
  pub opc_server : ℕ
  pub common : Option ℕ
  pub conn_shutdown : Option ℕ
  pub sink : Option ℕ
  pub cookie : ℕ
  pub id : ℕ
  pub node : Option Bytes

-- The constructor of `COpcServer`.
unfoldable pub new_client : Client
new_client = record {
  connected = false;
  groups = none;
  hr_last = 0;
  opc_server = 0;
  common = none;
  conn_shutdown = none;
  sink = none;
  cookie = no_cookie;
  id = 0;
  node = none;
}

-- The global variables, the groups that are not deleted, and the world. A pointer to a server that
-- is NULL is `none`.
pub record DllState (W : Type 0) : Type 0 where
  pub opc_server : Option Client
  pub main_server : Bool
  pub snd_opc_server : Option Client
  pub snd_server : Bool
  pub init_ok : Bool
  pub objects : ℕ → Option (Object Group)
  pub fresh : ℕ
  pub world : W

module _ {W : Type 0} where
  abbrev pub session_of : Client → DllState W → Session W
  session_of c g = record {
    server = record {
      connected = c.connected;
      groups = c.groups;
      objects = g.objects;
      fresh = g.fresh;
      hr_last = c.hr_last;
      world = g.world;
    };
    opc_server = c.opc_server;
    common = c.common;
    conn_shutdown = c.conn_shutdown;
    sink = c.sink;
    cookie = c.cookie;
    id = c.id;
    node = c.node;
  }

  abbrev pub client_of : Session W → Client
  client_of s = record {
    connected = s.server.connected;
    groups = s.server.groups;
    hr_last = s.server.hr_last;
    opc_server = s.opc_server;
    common = s.common;
    conn_shutdown = s.conn_shutdown;
    sink = s.sink;
    cookie = s.cookie;
    id = s.id;
    node = s.node;
  }

  -- The servers share the groups and the world.
  abbrev pub shared : Session W → DllState W → DllState W
  shared s g = record g {
    objects = s.server.objects;
    fresh = s.server.fresh;
    world = s.server.world;
  }

  -- A call of one of the servers; `main` tells which.
  abbrev pub keep_client : Bool → Session W → DllState W → DllState W
  keep_client true s g = record (shared s g) { opc_server = some (client_of s) }
  keep_client false s g = record (shared s g) { snd_opc_server = some (client_of s) }

  abbrev pub keep_run : {A : Type 0} → Bool → DllState W → Run (Session W) A → Run (DllState W) A
  keep_run main g (ok a s) = ok a (keep_client main s g)
  keep_run main g fault = fault
  keep_run main g out_of_fuel = out_of_fuel

  abbrev pub pointer : Bool → DllState W → Option Client
  pointer true g = g.opc_server
  pointer false g = g.snd_opc_server

  abbrev pub on_client_of : {A : Type 0} → Option Client → Bool → M (Session W) A → M (DllState W) A
  on_client_of none main run = bad
  on_client_of (some c) main run = λ g. keep_run main g (run (session_of c g))

  abbrev pub on_client : {A : Type 0} → Bool → M (Session W) A → M (DllState W) A
  on_client main run g = on_client_of (pointer main g) main run g

  -- `Release` of a group; the list plays no part.
  abbrev pub keep_objects : {A : Type 0} → DllState W → Run (Held Group) A → Run (DllState W) A
  keep_objects g (ok a h) = ok a (record g { objects = h.objects })
  keep_objects g fault = fault
  keep_objects g out_of_fuel = out_of_fuel

  unfoldable pub release_group : ℕ → M (DllState W) (Unit {0})
  release_group p g =
      keep_objects g (release can_end p (record { objects = g.objects; list = new_list 1 1 }))

  -- What a memory error of a part is for the run.
  abbrev pub checked : {A : Type 0} → Option A → M (DllState W) A
  checked none = bad
  checked (some a) = pure a

  abbrev pub keep_items :
      {A : Type 0} → ℕ → Object Group → Option ((A × List OpcItem) × W) → M (DllState W) A
  keep_items p o none = bad
  keep_items p o (some ((a, its), w)) = λ g. ok a (record g {
    objects = λ q.
        if q == p
        then some (record o { body = record o.body { items = some its } })
        else g.objects q;
    world = w;
  })

  abbrev pub on_items_in :
      {A : Type 0}
      → ℕ
      → Object Group
      → Option (List OpcItem)
      → (Group → List OpcItem → W → Option ((A × List OpcItem) × W))
      → M (DllState W) A
  on_items_in p o none f = bad
  on_items_in p o (some its) f = λ g. keep_items p o (f o.body its g.world) g

  abbrev pub on_items_of :
      {A : Type 0}
      → ℕ
      → Option (Object Group)
      → (Group → List OpcItem → W → Option ((A × List OpcItem) × W))
      → M (DllState W) A
  on_items_of p none f = bad
  on_items_of p (some o) f = on_items_in p o o.body.items f

  -- A call of the group at an address that works on its items.
  abbrev pub on_items :
      {A : Type 0}
      → ℕ
      → (Group → List OpcItem → W → Option ((A × List OpcItem) × W))
      → M (DllState W) A
  on_items p f g = on_items_of p (g.objects p) f g

-- A call through an interface of a group. Only `Detouch` takes the interfaces away, and a group that
-- it was called for is not used any more.
abbrev pub via : {A : Type 0} → Member → (ℕ → Option A) → Option A
via Member.unset k = none
via Member.null k = none
via (Member.interface i) k = k i
