-- ===== src/Opc/Request/Encode.antt =====
-- Requests as their senders write them: read requests as in the calls of OpcS7/Test/Test.cpp, and
-- `AddData` of that file, which writes an entry of a write request.
use edps_plc_data_acquisitio.Base.{
  ℕ, ◌<◌, List, [], ◌∷◌, ◌++◌, Bytes, codes, ltb, length, if◌then◌else◌, ◌^◌,
}
use edps_plc_data_acquisitio.Crt.{ltoa}
use edps_plc_data_acquisitio.Opc.Frame.{three_digits, frame}

pub record ReadEntry : Type 0 where
  pub point : Bytes
  pub conn : Bytes
  pub address : Bytes
  pub type : Bytes
  pub id : ℕ

pub record WriteEntry : Type 0 where
  pub conn : Bytes
  pub address : Bytes
  pub type : Bytes
  pub text : Bytes

-- "008CP_H1_1:007CPA1RPT011DB125,DINT0004LONG003288": point, connection, address, type, number.
unfoldable pub write_read_entry : ReadEntry → Bytes → Bytes
write_read_entry e rest =
    frame e.point
    ++ (frame e.conn ++ (frame e.address ++ (frame e.type ++ (frame (ltoa e.id) ++ rest))))

unfoldable pub read_request : List ReadEntry → Bytes
read_request [] = []
read_request (e ∷ es) = write_read_entry e (read_request es)

-- `sprintf(pPos, "%03d", nLen)`.
unfoldable pub printf_03 : ℕ → Bytes
printf_03 n = if ltb n 1000 then three_digits n else ltoa n

abbrev pub printed : Bytes → Bytes
printed v = printf_03 (length v) ++ v

-- `AddData`, in front of what later calls append.
unfoldable pub add_data : WriteEntry → Bytes → Bytes
add_data e rest =
    codes "000"
    ++ (printed e.conn
        ++ (printed e.address ++ (printed e.type ++ (printed e.text ++ (codes "000" ++ rest)))))

unfoldable pub write_request : List WriteEntry → Bytes
write_request [] = []
write_request (e ∷ es) = add_data e (write_request es)

-- Each length fits its three digits, and a number is a positive `long`.
abbrev pub IsReadable : List ReadEntry → Type 0
IsReadable [] = Unit {0}
IsReadable (e ∷ es) =
    (length e.point < 1000)
    × (length e.conn < 1000)
    × (length e.address < 1000)
    × (length e.type < 1000)
    × (0 < e.id)
    × (e.id < 2 ^ 31)
    × IsReadable es

abbrev pub IsWritable : List WriteEntry → Type 0
IsWritable [] = Unit {0}
IsWritable (e ∷ es) =
    (length e.conn < 1000)
    × (length e.address < 1000)
    × (length e.type < 1000)
    × (length e.text < 1000)
    × IsWritable es
