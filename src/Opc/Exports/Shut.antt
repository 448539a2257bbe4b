-- ===== src/Opc/Exports/Shut.antt =====
-- `SAPI_Shut`, and the calls behind it.
use mathlib.Core.Path.{subst}
use edps_plc_data_acquisitio.Base.{
  ℕ, ◌≡◌, refl, sym, ◌∙◌, ◌==◌, true, false, Option, none, some, List, Bytes, pos, minus, is_neg,
  length,
}
use edps_plc_data_acquisitio.Base.Run.{
  M, ok, and_then, Returns, returns, Ends, ended, broke, bind-Returns, map-Returns, if_Returns,
  modify, ◌>>◌, if_Ends, bind-Ends,
}
use edps_plc_data_acquisitio.Opc.Params.{Param, get_list_name}
use edps_plc_data_acquisitio.Opc.Request.{Scan}
use edps_plc_data_acquisitio.Opc.Request.Bounds.{
  Contained, listed, over_reads, over_copies, parse_request-Contained,
}
use edps_plc_data_acquisitio.Opc.Session.{Session, disconnect}
use edps_plc_data_acquisitio.Opc.Session.Ends.{SinkLaws, Cleared, disconnect-Cleared}
use edps_plc_data_acquisitio.Opc.Globals.{
  Around, Client, DllState, session_of, keep_client, on_client, checked,
}
use edps_plc_data_acquisitio.Opc.Library.{end_client, sapi_shut, get_opc_group}
use edps_plc_data_acquisitio.Opc.Library.Owned.{
  Serves, ServesMain, Kept, keep_run-Returns, on_client_lem, no_false,
}
use edps_plc_data_acquisitio.Opc.Exports.{
  parsed, group_of, sapi_read, sapi_write, sapi_mread, sapi_mwrite,
}

module _ {W : Type 0} (env : Around W) where
  -- No server is connected, no group is left, and the DLL is not ready.
  pub record Down (g : DllState W) : Type 0 where
    pub refuses : g.init_ok ≡ false
    pub main_off : g.main_server ≡ false
    pub second_off : g.snd_server ≡ false
    pub no_groups : (q : ℕ) → g.objects q ≡ none

  module _ (laws : SinkLaws env.activation) where
    -- The main server is disconnected, and its object deleted.
    abbrev Ended : DllState W → DllState W → Type 0
    Ended g g' =
        (g'.opc_server ≡ none)
        × (g'.main_server ≡ false)
        × (g'.snd_server ≡ g.snd_server)
        × ((q : ℕ) → g'.objects q ≡ none)

    disconnect-offline :
        (s : Session W)
        → s.server.connected ≡ false
        → disconnect env.api env.activation s ≡ ok false s
    unfolding disconnect
    disconnect-offline s offline = rw offline refl

    -- The destructor, and the end.
    abbrev end_again : M (DllState W) (Unit {0})
    end_again = do
      on_client true (disconnect env.api env.activation)
      modify (λ g. record g { opc_server = none; main_server = false })

    end_main :
        (g : DllState W) (c : Client)
        → g.opc_server ≡ some c
        → g.main_server ≡ true
        → Serves none c g
        → Returns (λ _ g'. Ended g g') (end_client env true g)
    unfolding end_client
    end_main g c e on s =
        bind-Returns
          (subst
            (Returns (λ _ g'.
              (s' : Session W) × (g' ≡ keep_client true s' g) × Cleared (session_of c g) s'))
            (sym (on_client_lem g c e _))
            (keep_run-Returns g
              (disconnect-Cleared env.api env.activation laws (session_of c g) (s.online ∙ on)
                s.served s.watched)
              λ r s' (_, cleared). (s', refl, cleared)))
          λ _ g' (s', eq, (offline, _, gone, _, _)).
            subst (λ g'. Returns (λ _ g''. Ended g g'') (end_again g')) (sym eq)
              (rw (disconnect-offline s' offline) (returns (refl, refl, refl, gone)))

    stays :
        (g : DllState W) (m : Option Client)
        → ServesMain none m g
        → ServesMain none m (record g { init_ok = false })
    stays g none (e, off, down, gone) = (e, off, refl, gone)
    stays g (some c) s = record {
      online = s.online;
      served = s.served;
      watched = s.watched;
      no_groups = s.no_groups;
    }

    groups_gone :
        (g : DllState W) (m : Option Client)
        → ServesMain none m g
        → g.main_server ≡ false
        → (q : ℕ) → g.objects q ≡ none
    groups_gone g none (_, _, _, gone) off = gone
    groups_gone g (some c) s off = s.no_groups off

    -- Nothing is connected, and no group is left.
    abbrev Over : DllState W → Type 0
    Over g =
        (g.main_server ≡ false)
        × (g.snd_server ≡ false)
        × ((q : ℕ) → g.objects q ≡ none)
        × ServesMain none g.opc_server (record g { init_ok = false })

    end_main-Over :
        (g : DllState W) (m : Option Client)
        → g.opc_server ≡ m
        → g.snd_server ≡ false
        → ServesMain none m g
        → g.main_server ≡ true
        → Returns (λ _ g'. Over g') (end_client env true g)
    end_main-Over g none e off (_, main_off, _, _) on = no_false g.main_server on main_off
    end_main-Over g (some c) e off s on =
        map-Returns (end_main g c e on s) λ _ g' (none_left, main_off, same_second, gone). (
          main_off,
          same_second ∙ off,
          gone,
          subst (λ m. ServesMain none m (record g' { init_ok = false })) (sym none_left)
              (refl, main_off, refl, gone),
        )

    -- On a DLL that owns its groups, SAPI_Shut returns 0, and leaves the DLL down.
    pub sapi_shut-Down :
        (g : DllState W)
        → Kept g
        → Returns (λ r g'. (r ≡ pos 0) × Down g' × Kept g') (sapi_shut env g)
    unfolding sapi_shut
    sapi_shut-Down g (off, s) =
        bind-Returns
          (if_Returns {P = λ _ g'. Over g'} g.main_server _ _
            (end_main-Over g g.opc_server refl off s)
            λ main_off.
              returns
                (main_off, off, groups_gone g g.opc_server s main_off, stays g g.opc_server s))
          λ _ g' (main_off, second_off, gone, kept).
            bind-Returns
              (if_Returns {P = λ _ g''. Over g''} g'.snd_server _ _
                (λ on. no_false g'.snd_server on second_off)
                λ _. returns (main_off, second_off, gone, kept))
              λ _ g'' (main_off', second_off', gone', kept'). returns (
                refl,
                record {
                  refuses = refl;
                  main_off = main_off';
                  second_off = second_off';
                  no_groups = gone';
                },
                (second_off', kept'),
              )

  module _ (g : DllState W) (down : Down g) where
    -- What is refused leaves the DLL as it is.
    get_opc_group-refused : (name : Bytes) → get_opc_group env true name g ≡ ok none g
    unfolding get_opc_group
    get_opc_group-refused name = rw (down.refuses) refl

    pub sapi_read-refused : (conn item : Bytes) → sapi_read env conn item g ≡ ok (minus 1, none) g
    unfolding sapi_read
    sapi_read-refused conn item = rw (get_opc_group-refused _) refl

    pub sapi_write-refused :
        (conn item type text : Bytes) → sapi_write env conn item type text g ≡ ok (minus 1) g
    unfolding sapi_write
    sapi_write-refused conn item type text = rw (get_opc_group-refused _) refl

    group_of-refused : (qs : List Param) → Ends (λ r g'. (r ≡ none) × (g' ≡ g)) (group_of env qs g)
    unfolding group_of
    group_of-refused qs = named (get_list_name qs)
      where
        named :
            (n : Option Bytes)
            → Ends
                (λ r g'. (r ≡ none) × (g' ≡ g))
                (and_then (checked n g) (λ name. get_opc_group env true name))
        named none = broke
        named (some name) = rw (get_opc_group-refused name) (ended (refl, refl))

    parsed-refused :
        {A : Type 0} {P : A → DllState W → Type 0} {r : Scan (List Param)}
        (body : List Param → M (DllState W) A)
        → Contained r
        → ((qs : List Param) → Ends P (body qs g))
        → Ends P (and_then (parsed r g) body)
    parsed-refused body listed next = next _
    parsed-refused body over_reads next = broke
    parsed-refused body over_copies next = broke

    pub sapi_mread-refused :
        (par_str : Bytes)
        → Ends (λ r g'. (is_neg r.0 ≡ true) × (r.1 ≡ none) × (g' ≡ g)) (sapi_mread env par_str g)
    unfolding sapi_mread
    sapi_mread-refused par_str =
        parsed-refused _ (parse_request-Contained env.ole true par_str) λ qs.
          if_Ends {s = g} (length qs == 0) _ _ (λ empty. ended (refl, refl, refl))
            λ some_parameters.
              bind-Ends (group_of-refused qs) λ r g' (e, same). rw e (ended (refl, refl, same))

    pub sapi_mwrite-refused :
        (par_str : Bytes) → Ends (λ r g'. (is_neg r ≡ true) × (g' ≡ g)) (sapi_mwrite env par_str g)
    unfolding sapi_mwrite
    sapi_mwrite-refused par_str =
        parsed-refused _ (parse_request-Contained env.ole false par_str) λ qs.
          if_Ends {s = g} (length qs == 0) _ _ (λ empty. ended (refl, refl))
            λ some_parameters.
              bind-Ends (group_of-refused qs) λ r g' (e, same). rw e (ended (refl, same))
