-- ===== src/Sapi/Library.antt =====
-- SAPI/SAPIlib.cpp, the functions that the library exports.
pub mod WellFormed
pub mod Cells
pub mod Delete
pub mod Attach
pub mod Calls
pub mod Connect
pub mod Construct
pub mod FullTable
pub mod Pending
pub mod Reach
pub mod Shut
pub mod Uncounted
use edps_plc_data_acquisitio.Base.{
  ℕ, ◌+◌, Option, none, some, List, [], ◌∷◌, ◌++◌, Bytes, ℤ, pos, minus, is_zero, is_neg, length,
  get_elem?, set, bytes_eq, ◌==◌, if◌then◌else◌,
}
use edps_plc_data_acquisitio.Base.Run.{ok, fault, M, pure, ◌>>=◌, ◌>>◌, get, modify}
use edps_plc_data_acquisitio.Sapi.Env.{S7}
use edps_plc_data_acquisitio.Sapi.Data.{Bstr, Done, read_data, write_data}
use edps_plc_data_acquisitio.Sapi.Store.{Connection, Globals, conn_qty, lift, deref}
use edps_plc_data_acquisitio.Sapi.Connection.{new_connection, delete_connection}

-- Whether a connection is there to use, or the code to return.
pub data Link : Type 0 where
  linked : ℕ → Link
  refused : ℤ → Link

module _ {W : Type 0} where
  -- The first connection of that name to that processor, or the end: `ConnName` is compared first,
  -- and `SessionName` follows the pointer to the session.
  unfoldable pub search_connections : List Connection → ℕ → Bytes → Bytes → M (Globals W) ℕ
  search_connections [] i cp conn = pure i
  search_connections (c ∷ cs) i cp conn =
      if bytes_eq c.con_name conn
      then (do
        s ← deref c.session
        if bytes_eq s.name cp then pure i else search_connections cs (i + 1) cp conn)
      else search_connections cs (i + 1) cp conn

  unfoldable pub nth_connection : ℕ → M (Globals W) Connection
  nth_connection i g = elim (get_elem? g.con i) [ none ↦ fault | some c ↦ ok c g ]

  -- The reference that a transfer has left in the connection.
  unfoldable pub keep_ref : ℕ → Connection → ℕ → M (Globals W) (Unit {0})
  keep_ref i c con_ref =
      modify (λ g. record g { con = set g.con i (record c { con_ref = con_ref }) })

  module _ (s7 : S7 W) where
    -- `delete Con[iI]` for each entry in turn.
    unfoldable pub delete_all : List Connection → M (Globals W) (Unit {0})
    delete_all [] = pure tt
    delete_all (c ∷ cs) = do delete_connection s7 c; delete_all cs

    unfoldable pub sapi_shut : M (Globals W) ℤ
    sapi_shut = do g ← get; delete_all g.con; modify (λ g. record g { con = [] }); pure (pos 0)

    -- The part of `SAPI_read` and `SAPI_write` that looks for the connection and else makes it.
    unfoldable pub connect : Bytes → Bytes → M (Globals W) Link
    connect cp conn = do
      g ← get
      i ← search_connections g.con 0 cp conn
      if i == length g.con
          then (if length g.con == conn_qty then pure (refused (minus 99)) else (do
            c ← new_connection s7 cp conn
            if is_zero c.status
                then (do modify (λ g. record g { con = g.con ++ c ∷ [] }); pure (linked i))
                else (do delete_connection s7 c; pure (refused c.status))))
          else pure (linked i)

    -- A transfer that fails closes every connection.
    unfoldable pub shut_on_error : ℤ → M (Globals W) (Unit {0})
    shut_on_error res = if is_neg res then sapi_shut >>= (λ _. pure tt) else pure tt

    module _ (fuel : ℕ) where
      abbrev transfer : {A : Type 0} → (Connection → M W (Done A)) → (A → ℤ) → ℕ → M (Globals W) A
      transfer run code i = do
        c ← nth_connection i
        d ← lift (run c)
        keep_ref i c d.con_ref
        shut_on_error (code d.value)
        pure d.value

      -- The BSTR is left alone where no connection is made.
      after_link_read : Bytes → Bytes → Link → M (Globals W) (ℤ × Option Bstr)
      after_link_read item type (refused status) = pure (status, none)
      after_link_read item type (linked i) = do
        (res, text) ← transfer (λ c. read_data s7 fuel c.desc_cp c.con_ref item type) (λ r. r.0) i
        pure (res, some text)

      unfoldable pub sapi_read : (cp conn item type : Bytes) → M (Globals W) (ℤ × Option Bstr)
      unfolding after_link_read
      sapi_read cp conn item type = do link ← connect cp conn; after_link_read item type link

      after_link_write : Bytes → Bytes → Bytes → Link → M (Globals W) ℤ
      after_link_write item type text (refused status) = pure status
      after_link_write item type text (linked i) =
          transfer (λ c. write_data s7 fuel c.desc_cp c.con_ref item type text) (λ r. r) i

      unfoldable pub sapi_write : (cp conn item type text : Bytes) → M (Globals W) ℤ
      unfolding after_link_write
      sapi_write cp conn item type text = do
        link ← connect cp conn
        after_link_write item type text link
