-- ===== src/Opc/Library.antt =====
-- OpcS7/OpcS7.cpp: the start of the DLL, its end, the connection to a server, and the selection of a
-- group. What the functions of OpcS7.cpp log is left out, and so are the handlers that turn a memory
-- error into the code -10: a memory error is a fault of the run.
pub mod Owned
pub mod Selects
use edps_plc_data_acquisitio.Base.{
  ℕ, ◌&&◌, ◌||◌, not, ltb, Bool, true, false, Option, none, some, Bytes, codes, ℤ, pos, length,
  if◌then◌else◌,
}
use edps_plc_data_acquisitio.Base.Run.{M, pure, ◌>>=◌, ◌>>◌, get, modify}
use edps_plc_data_acquisitio.Opc.Server.{get_group_by_name, add_group}
use edps_plc_data_acquisitio.Opc.Session.{on_server, connect, disconnect}
use edps_plc_data_acquisitio.Opc.Globals.{Around, DllState, new_client, on_client}

abbrev pub rd_group_name : Bytes
rd_group_name = codes "EDPS.ReadGp"

abbrev pub wr_group_name : Bytes
wr_group_name = codes "EDPS.WriteGp"

module _ {W : Type 0} (env : Around W) where
  -- `DllMain` when the DLL is attached; `init` is whether `CoInitialize` succeeds.
  unfoldable pub attach_process : (init : Bool) → M (DllState W) Bool
  attach_process init = do
    modify (λ g.
        if init
        then record g {
          opc_server = some new_client;
          main_server = false;
          snd_opc_server = some new_client;
          snd_server = false;
        }
        else g)
    modify (λ g. record g { init_ok = init })
    pure init

  -- `SAPI_Shut` for one server: the destructor disconnects once more.
  unfoldable pub end_client : Bool → M (DllState W) (Unit {0})
  end_client main = do
    on_client main (disconnect env.api env.activation)
    on_client main (disconnect env.api env.activation)
    modify (λ g.
        if main
        then record g { opc_server = none; main_server = false }
        else record g { snd_opc_server = none; snd_server = false })

  unfoldable pub sapi_shut : M (DllState W) ℤ
  sapi_shut = do
    g ← get
    if g.main_server then end_client true else pure tt
    g ← get
    if g.snd_server then end_client false else pure tt
    modify (λ g. record g { init_ok = false })
    pure (pos 0)

  unfoldable pub connect_main : M (DllState W) (Unit {0})
  connect_main = do
    b ← on_client true (connect env.api env.activation env.client_name env.s7_opc_server none)
    modify (λ g. record g { main_server = b })

  unfoldable pub connect_second : M (DllState W) (Unit {0})
  connect_second = do
    b ← on_client false (
        connect env.api env.activation env.client_name env.s7_opc_server
          (some env.emergency_server_node))
    modify (λ g. record g { snd_server = b })

  unfoldable pub connect_to_server : M (DllState W) Bool
  connect_to_server = do
    g ← get
    if g.main_server then pure tt else connect_main
    g ← get
    if not g.snd_server && (not g.init_ok && ltb 0 (length env.emergency_server_node))
        then connect_second
        else pure tt
    g ← get
    pure (g.main_server || g.snd_server)

  -- The server that `GetOPCGroup` selects, or NULL.
  unfoldable pub select_server : Bool → M (DllState W) (Option Bool)
  select_server false = do g ← get; pure (if g.snd_server then some false else none)
  select_server true = do
    g ← get
    if g.main_server then pure tt else (connect_to_server >> pure tt)
    g ← get
    pure (if g.main_server then some true else none)

  -- A group that was not found is added to the main server, whichever was searched.
  abbrev pub found_or_added : Bytes → Option ℕ → M (DllState W) (Option ℕ)
  found_or_added name none = on_client true (on_server (add_group env.api name))
  found_or_added name (some p) = pure (some p)

  unfoldable pub find_or_add_group : Bool → Bytes → M (DllState W) (Option ℕ)
  find_or_add_group main name = do
    (found, _) ← on_client main (on_server (get_group_by_name env.api name))
    found_or_added name found

  abbrev pub in_selected : Bytes → Option Bool → M (DllState W) (Option ℕ)
  in_selected name none = pure none
  in_selected name (some which) = find_or_add_group which name

  unfoldable pub get_opc_group : Bool → Bytes → M (DllState W) (Option ℕ)
  get_opc_group main name = do
    g ← get
    if not g.init_ok
        then pure none
        else (do selected ← select_server main; in_selected name selected)
