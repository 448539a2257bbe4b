-- ===== src/Opc/Session.antt =====
-- OpcS7/OPCRelease/OPCDAServer.cpp: `Connect` and `Disconnect`, and the mini-object that a server
-- calls when it is shut down.
pub mod Ends
pub mod Joins
use edps_plc_data_acquisitio.Base.{
  ℕ, ◌+◌, ◌-◌, ◌==◌, ◌&&◌, not, ltb, Bool, true, false, Option, none, some, Bytes, if◌then◌else◌,
}
use edps_plc_data_acquisitio.Base.Run.{
  Run, M, ok, fault, out_of_fuel, pure, ◌>>=◌, ◌>>◌, get, modify, bad,
}
use edps_plc_data_acquisitio.Opc.Items.{failed}
use edps_plc_data_acquisitio.Opc.Group.{Com}
use edps_plc_data_acquisitio.Opc.Server.{Server}
use edps_plc_data_acquisitio.Opc.Server.Remove.{remove_groups}

-- `COpcServer`: the server with its groups, and the other members. An interface is a number, and a
-- member that is NULL is `none`. `opc_server` is meant where the server is connected. `sink` is the
-- count of references of `m_pObjShutdown`.
pub record Session (W : Type 0) : Type 0 where
  pub server : Server W
  pub opc_server : ℕ
  pub common : Option ℕ
  pub conn_shutdown : Option ℕ
  pub sink : Option ℕ
  pub cookie : ℕ
  pub id : ℕ
  pub node : Option Bytes

-- An entry of the list of interfaces that `CoCreateInstanceEx` fills: the code, and the interface,
-- which is NULL where the code is a failure.
pub record MultiQi : Type 0 where
  pub hr : ℕ
  pub itf : ℕ

-- What `CoCreateInstanceEx` gives: its code, IOPCCommon, IOPCServer and IConnectionPointContainer.
pub record Created : Type 0 where
  pub hr : ℕ
  pub opc_common : MultiQi
  pub opc_server : MultiQi
  pub container : MultiQi

-- COM, as `Connect` and `Disconnect` use it. `advise` gives the code, the cookie and the references
-- of the mini-object that the server keeps, and `unadvise` those that it gives back.
pub record Activation (W : Type 0) : Type 0 where
  pub clsid_from_prog_id : Bytes → W → (ℕ × ℕ) × W
  pub create_instance : ℕ → Option Bytes → W → Created × W
  pub set_client_name : ℕ → Bytes → W → W
  pub set_locale_id : ℕ → ℕ → W → W
  pub find_connection_point : ℕ → W → (ℕ × ℕ) × W
  pub advise : ℕ → W → (ℕ × ℕ × ℕ) × W
  pub unadvise : ℕ → ℕ → W → ℕ × W

-- `E_NOINTERFACE`, `LOCALE_SYSTEM_DEFAULT`, and the cookie before the first `Advise`, -1.
abbrev pub e_nointerface : ℕ
e_nointerface = 0x8000_4002

abbrev pub locale_system_default : ℕ
locale_system_default = 0x800

abbrev pub no_cookie : ℕ
no_cookie = 0xffff_ffff

-- The mini-object with so many references fewer: at 0 it is deleted, which sets the pointer of its
-- server to NULL.
abbrev pub dropped : ℕ → ℕ → Option ℕ
dropped n count = if ltb n count then some (count - n) else none

module _ {W : Type 0} where
  abbrev pub on_com : {A : Type 0} → (W → A × W) → M (Session W) A
  on_com f s =
      let (a, w) = f s.server.world in ok a (record s { server = record s.server { world = w } })

  abbrev pub with_server : {A : Type 0} → Session W → Run (Server W) A → Run (Session W) A
  with_server s (ok a t) = ok a (record s { server = t })
  with_server s fault = fault
  with_server s out_of_fuel = out_of_fuel

  abbrev pub on_server : {A : Type 0} → M (Server W) A → M (Session W) A
  on_server run s = with_server s (run s.server)

  abbrev set_hr : ℕ → M (Session W) (Unit {0})
  set_hr hr = modify (λ s. record s { server = record s.server { hr_last = hr } })

  -- `Release` of the mini-object.
  abbrev pub drop_sink_of : Option ℕ → ℕ → M (Session W) (Unit {0})
  drop_sink_of none n = bad
  drop_sink_of (some count) n = modify (λ s. record s { sink = dropped n count })

  -- So many references of the mini-object are given back.
  unfoldable pub drop_sink : ℕ → M (Session W) (Unit {0})
  drop_sink n s = drop_sink_of s.sink n s

module _ {W : Type 0} (api : Com W) (com_api : Activation W) where
  abbrev pub release_itf : ℕ → M (Session W) (Unit {0})
  release_itf i = on_com (λ w. (tt, api.release_interface i w))

  abbrev pub release_some : Option ℕ → M (Session W) (Unit {0})
  release_some none = pure tt
  release_some (some i) = release_itf i

  -- `Unadvise`, where the server knows the mini-object.
  abbrev pub unadvise_sink : ℕ → Option ℕ → ℕ → M (Session W) (Unit {0})
  unadvise_sink point none cookie = pure tt
  unadvise_sink point (some count) cookie = if cookie == no_cookie then pure tt else (do
    n ← on_com (com_api.unadvise point cookie)
    if n == 0 then pure tt else drop_sink n
    drop_sink 1)

  abbrev pub end_shutdown : Option ℕ → M (Session W) (Unit {0})
  end_shutdown none = pure tt
  end_shutdown (some point) = do s ← get; unadvise_sink point s.sink s.cookie; release_itf point

  unfoldable pub disconnect : M (Session W) Bool
  disconnect s =
      if s.server.connected
      then (do
        end_shutdown s.conn_shutdown
        on_server (remove_groups api)
        release_itf s.opc_server
        release_some s.common
        modify (λ s'. record s' {
          server = record s'.server { connected = false; hr_last = 0 };
          common = none;
          conn_shutdown = none;
          id = 0;
          node = none;
        })
        pure true)
          s
      else ok false s

  -- The mini-object is made with one reference of its own. `Connect` gives back the reference that
  -- it took for `Advise`; where that failed, its own too, and the connection point.
  unfoldable pub advise_sink : ℕ → M (Session W) (Unit {0})
  advise_sink point = do
    (hr, cookie, kept) ← on_com (com_api.advise point)
    modify (λ s. record s { sink = some (1 + kept); conn_shutdown = some point; cookie = cookie })
    if failed hr
        then (do drop_sink 1; release_itf point; modify (λ s. record s { conn_shutdown = none }))
        else pure tt

  -- The part of `Connect` that asks for the event on shutdown.
  unfoldable pub watch_shutdown : ℕ → M (Session W) (Unit {0})
  watch_shutdown container = do
    (hr, point) ← on_com (com_api.find_connection_point container)
    if failed hr then modify (λ s. record s { conn_shutdown = none }) else advise_sink point
    release_itf container

  abbrev pub given_itf : MultiQi → Option ℕ
  given_itf q = if failed q.hr then none else some q.itf

  -- `m_hrLast` behind the entries: the code of the last one that IOPCCommon or IOPCServer has of a
  -- failure.
  unfoldable pub last_hr : Created → ℕ
  last_hr c =
      if failed c.opc_server.hr
      then c.opc_server.hr
      else (if failed c.opc_common.hr then c.opc_common.hr else c.hr)

  -- Some interface that is needed is missing: the others are released.
  unfoldable pub give_up : Created → M (Session W) Bool
  give_up c = do
    release_some (given_itf c.opc_common)
    release_some (given_itf c.opc_server)
    release_some (given_itf c.container)
    pure false

  abbrev pub watch_some : Option ℕ → M (Session W) (Unit {0})
  watch_some none = pure tt
  watch_some (some container) = watch_shutdown container

  unfoldable pub set_up : (client_name : Bytes) (id : ℕ) → Created → M (Session W) Bool
  set_up client_name id c = do
    modify (λ s. record s {
      server = record s.server { connected = true };
      opc_server = c.opc_server.itf;
      common = some c.opc_common.itf;
      id = id;
    })
    on_com (λ w. (tt, com_api.set_client_name c.opc_common.itf client_name w))
    on_com (λ w. (tt, com_api.set_locale_id c.opc_common.itf locale_system_default w))
    watch_some (given_itf c.container)
    set_hr 0
    pure true

  -- `Connect` by the class of the server.
  unfoldable pub connect_class : (client_name : Bytes) → ℕ → Option Bytes → M (Session W) Bool
  connect_class client_name id node = do
    disconnect
    modify (λ s. record s { node = node })
    c ← on_com (com_api.create_instance id node)
    if failed c.hr && not (c.hr == e_nointerface) then (set_hr c.hr >> pure false) else (do
      set_hr (last_hr c)
      if failed (last_hr c) then give_up c else set_up client_name id c)

  -- `Connect` by the name of the server.
  unfoldable pub connect : (client_name server_id : Bytes) → Option Bytes → M (Session W) Bool
  connect client_name server_id node = do
    (hr, id) ← on_com (com_api.clsid_from_prog_id server_id)
    if failed hr then pure false else connect_class client_name id node
