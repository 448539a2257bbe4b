-- ===== src/Opc/Library/Owned.antt =====
-- The DLL between its calls: its servers and the groups that they have lent.
use mathlib.Core.Path.{subst}
use edps_plc_data_acquisitio.Base.{
  ℕ, ◌≡◌, refl, sym, ◌∙◌, true, false, Bool, Option, none, some, Bytes, arith,
}
use edps_plc_data_acquisitio.Base.Run.{Run, M, Returns, returns, Ends, ended, broke, Returns-Ends}
use edps_plc_data_acquisitio.Opc.Server.{get_group_by_name, add_group}
use edps_plc_data_acquisitio.Opc.Server.Owns.{Room, Served, ServedBy, get_group_by_name-Served}
use edps_plc_data_acquisitio.Opc.Server.Lends.{add_group-Served}
use edps_plc_data_acquisitio.Opc.Session.{Session, on_server}
use edps_plc_data_acquisitio.Opc.Session.Ends.{Watched, with_server-Ends}
use edps_plc_data_acquisitio.Opc.Globals.{
  Around, Client, DllState, session_of, client_of, keep_client, keep_run, on_client,
}
use edps_plc_data_acquisitio.Opc.Library.{found_or_added}

pub no_false : {A : Type 0} (b : Bool) → b ≡ true → b ≡ false → A
no_false b t f = absurd (ground (arith, sym t ∙ f))

abbrev pub RoomOf : Option Client → Type 0
RoomOf none = Unit {0}
RoomOf (some c) = Room c.groups

module _ {W : Type 0} where
  -- The main server is connected where the flag says so, and one of its groups is lent, or none.
  pub record Serves (r : Option ℕ) (c : Client) (g : DllState W) : Type 0 where
    pub online : c.connected ≡ g.main_server
    pub served : Served r c.groups g.objects g.fresh
    pub watched : Watched c.conn_shutdown c.sink
    pub no_groups : g.main_server ≡ false → (q : ℕ) → g.objects q ≡ none

  -- Without a main server the DLL is not ready.
  abbrev pub ServesMain : Option ℕ → Option Client → DllState W → Type 0
  ServesMain r none g =
      (r ≡ none) × (g.main_server ≡ false) × (g.init_ok ≡ false) × ((q : ℕ) → g.objects q ≡ none)
  ServesMain r (some c) g = Serves r c g

  -- The second server is not connected.
  abbrev pub Lending : Option ℕ → DllState W → Type 0
  Lending r g = (g.snd_server ≡ false) × ServesMain r g.opc_server g

  -- Between two calls no group is lent.
  abbrev pub Kept : DllState W → Type 0
  Kept g = Lending none g

  -- The list of the groups can grow.
  abbrev pub RoomIn : DllState W → Type 0
  RoomIn g = RoomOf g.opc_server

  keep_run-Ends :
      {A : Type 0} {P : A → Session W → Type 0} {Q : A → DllState W → Type 0} (g : DllState W)
      {r : Run (Session W) A}
      → Ends P r
      → ((a : A) (s : Session W) → P a s → Q a (keep_client true s g))
      → Ends Q (keep_run true g r)
  keep_run-Ends g (ended p) next = ended (next _ _ p)
  keep_run-Ends g broke next = broke

  pub keep_run-Returns :
      {A : Type 0} {P : A → Session W → Type 0} {Q : A → DllState W → Type 0} (g : DllState W)
      {r : Run (Session W) A}
      → Returns P r
      → ((a : A) (s : Session W) → P a s → Q a (keep_client true s g))
      → Returns Q (keep_run true g r)
  keep_run-Returns g (returns p) next = returns (next _ _ p)

module _ {W : Type 0} where
  pub on_client_lem :
      {A : Type 0} (g : DllState W) (c : Client)
      → g.opc_server ≡ some c
      → (run : M (Session W) A) → on_client true run g ≡ keep_run true g (run (session_of c g))
  on_client_lem g c e run = rw e refl

module _ {W : Type 0} (env : Around W) where
  -- What the search in the list of the main server gives.
  pub record Found (r : Option ℕ) (g' : DllState W) : Type 0 where
    client : Client
    here : g'.opc_server ≡ some client
    off : g'.snd_server ≡ false
    on : g'.main_server ≡ true
    serves : Serves r client g'
    room : Room client.groups

  module _ (name : Bytes) (g : DllState W) (c : Client) (here : g.opc_server ≡ some c)
      (off : g.snd_server ≡ false) (on : g.main_server ≡ true) (s : Serves none c g)
      (room : Room c.groups) where
    pub search-Found :
        Ends (λ r g'. Found r.0 g') (on_client true (on_server (get_group_by_name env.api name)) g)
    search-Found = subst (Ends (λ r g'. Found r.0 g')) (sym (on_client_lem g c here _)) (
        keep_run-Ends
          {P = λ r s'.
            (ServedBy (session_of c g).server r.0 s'.server
              × (Room c.groups → Room s'.server.groups))
            × Watched s'.conn_shutdown s'.sink}
          g
          (with_server-Ends (session_of c g)
            (Returns-Ends (get_group_by_name-Served env.api (session_of c g).server name s.served))
            λ r t k. (k, s.watched))
          λ r s' (((served, same_online), keeps), watched). record {
            client = client_of s';
            here = refl;
            off = off;
            on = on;
            serves = record {
              online = same_online ∙ s.online;
              served = served;
              watched = watched;
              no_groups = no_false g.main_server on;
            };
            room = keeps room;
          })

    add-Lending :
        Ends (λ r g'. Lending r g') (on_client true (on_server (add_group env.api name)) g)
    add-Lending = subst (Ends (λ r g'. Lending r g')) (sym (on_client_lem g c here _)) (
        keep_run-Ends
          {P = λ r s'.
            ServedBy (session_of c g).server r s'.server × Watched s'.conn_shutdown s'.sink}
          g
          (with_server-Ends (session_of c g)
            (add_group-Served env.api (session_of c g).server name s.served room)
            λ r t k. (k, s.watched))
          λ r s' ((served, same_online), watched). (
            off,
            record {
              online = same_online ∙ s.online;
              served = served;
              watched = watched;
              no_groups = no_false g.main_server on;
            },
          ))

  -- A group of the main server, or NULL.
  pub find-Lending :
      (name : Bytes) (r : Option ℕ) (g : DllState W)
      → Found r g
      → Ends (λ r g'. Lending r g') (found_or_added env name r g)
  find-Lending name none g f = add-Lending name g f.client f.here f.off f.on f.serves f.room
  find-Lending name (some p) g f =
      ended (f.off, subst (λ m. ServesMain (some p) m g) (sym f.here) f.serves)
