-- ===== src/Opc/Request/RoundTrip.antt =====
-- `ParseRequest` finds the entries that a request was made of.
use mathlib.Core.List.{append_assoc, append-nil}
use edps_plc_data_acquisitio.Base.{
  ℕ, zero, suc, ◌+◌, ◌≤◌, ◌<◌, ◌^◌, ◌≡◌, refl, Bool, true, false, none, List, [], ◌∷◌, ◌++◌, Bytes,
  codes, length, length-append, arith, map, is_neg, is_zero, signed32, ◌||◌,
}
use edps_plc_data_acquisitio.Crt.{ltoa}
use edps_plc_data_acquisitio.Crt.RoundTrip.{atol-ltoa, length-ltoa}
use edps_plc_data_acquisitio.Opc.Frame.{split_field, frame, three_digits}
use edps_plc_data_acquisitio.Opc.Frame.RoundTrip.{split_field-frame}
use edps_plc_data_acquisitio.Opc.Params.{Param, Ole, empty, add_item}
use edps_plc_data_acquisitio.Opc.Request.{
  Cursor, Scan, got, stopped, skip_value, room, copy_value, scan_names, scan_read, scan_write,
  scan_entry, scan_all, parse_request,
}
use edps_plc_data_acquisitio.Opc.Request.Encode.{
  ReadEntry, write_read_entry, read_request, IsReadable,
}

pub length-frame : (v rest : Bytes) → length (frame v ++ rest) ≡ 3 + length v + length rest
unfolding frame three_digits
length-frame v rest = omega (arith, length-append v rest)

abbrev pub at : Bytes → ℕ → Cursor
at request ptr = record { request = request; ptr = ptr }

pub skip_value-frame :
    (v rest : Bytes) (ptr : ℕ)
    → length v < 1000
    → skip_value (at (frame v ++ rest) ptr) ≡ got tt (at rest ptr)
unfolding skip_value
skip_value-frame v rest ptr h = rw (split_field-frame v rest h, skip_value)

module _ (size : ℕ) where
  room-got :
      (n ptr : ℕ) (request : Bytes)
      → ptr + n ≤ size
      → room size n (at request ptr) ≡ got tt (at request ptr)
  unfolding room
  room-got n ptr request h = ground arith

  pub copy_value-frame :
      (v rest : Bytes) (ptr : ℕ)
      → length v < 1000
      → ptr + (length v + 1) ≤ size
      → copy_value size (at (frame v ++ rest) ptr) ≡ got v (at rest ptr)
  unfolding copy_value
  copy_value-frame v rest ptr h fits =
      rw (split_field-frame v rest h, copy_value) (rw (room-got (length v + 1) ptr rest fits))

  pub scan_names-frames :
      (p c a t rest : Bytes) (ptr : ℕ)
      → length p < 1000
      → length c < 1000
      → length a < 1000
      → length t < 1000
      → ptr + (15 + length c + length a + length t + length rest) ≤ size + 3
      → scan_names size (at (frame p ++ (frame c ++ (frame a ++ (frame t ++ rest)))) ptr)
        ≡ got
            (codes "S7:[" ++ c ++ b']' ∷ a, t)
            (at rest (ptr + 4 + length c + 1 + (length a + 1) + (length t + 1)))
  unfolding scan_names
  scan_names-frames p c a t rest ptr hp hc ha ht fits = rw (
    skip_value-frame p _ ptr hp,
    room-got 4 ptr _ (omega arith),
    copy_value-frame c _ (ptr + 4) hc (omega arith),
    room-got 1 (ptr + 4 + length c) _ (omega arith),
    copy_value-frame a _ (ptr + 4 + length c + 1) ha (omega arith),
    copy_value-frame t rest (ptr + 4 + length c + 1 + (length a + 1)) ht (omega arith),
  )

pub scan_entry-nil :
    (size : ℕ) (ole : Ole) (read : Bool) (l : List Param) (ptr : ℕ)
    → scan_entry size ole read l (at [] ptr) ≡ stopped
unfolding scan_entry scan_read scan_write scan_names skip_value split_field
scan_entry-nil size ole true l ptr = refl
scan_entry-nil size ole false l ptr = refl

-- The entry that a read request makes.
abbrev pub entry : ReadEntry → Param
entry e = record {
  par_id = e.id;
  item_id = codes "S7:[" ++ e.conn ++ b']' ∷ e.address;
  val = empty;
  item = none;
}

length-read_entry :
    (e : ReadEntry) (rest : Bytes)
    → length (write_read_entry e rest)
      ≡ 15
        + length e.point
        + length e.conn
        + length e.address
        + length e.type
        + length (ltoa e.id)
        + length rest
unfolding write_read_entry
length-read_entry e rest = omega (
  arith,
  length-frame (ltoa e.id) rest,
  length-frame e.type (frame (ltoa e.id) ++ rest),
  length-frame e.address (frame e.type ++ (frame (ltoa e.id) ++ rest)),
  length-frame e.conn (frame e.address ++ (frame e.type ++ (frame (ltoa e.id) ++ rest))),
  length-frame e.point
      (frame e.conn ++ (frame e.address ++ (frame e.type ++ (frame (ltoa e.id) ++ rest)))),
)

positive_id : (n : ℕ) → 0 < n → n < 2 ^ 31 → (is_neg (signed32 n) || is_zero (signed32 n)) ≡ false
positive_id n p h = ground arith

module _ (ole : Ole) (size : ℕ) where
  -- An entry that was scanned, and the byte to spare behind it.
  abbrev Scanned : Scan (List Param) → List Param → Bytes → Type 0
  Scanned r l rest = (ptr : ℕ) × (r ≡ got l (at rest ptr)) × (ptr + length rest + 1 ≤ size)

  scan_read-entry :
      (e : ReadEntry) (es : List ReadEntry) (l : List Param) (rest : Bytes) (ptr : ℕ)
      → IsReadable (e ∷ es)
      → ptr + length (write_read_entry e rest) + 1 ≤ size
      → Scanned
          (scan_entry size ole true l (at (write_read_entry e rest) ptr))
          (l ++ entry e ∷ [])
          rest
  unfolding scan_entry scan_read write_read_entry add_item
  scan_read-entry e es l rest ptr (hp, hc, ha, ht, pos_id, small_id, _) fits = (
    ptr + 4 + length e.conn + 1 + (length e.address + 1) + (length e.type + 1),
    rw (
      scan_names-frames size e.point e.conn e.address e.type (frame (ltoa e.id) ++ rest) ptr hp hc
          ha ht (omega (arith, length-read_entry e rest, length-frame (ltoa e.id) rest)),
      copy_value-frame size (ltoa e.id) rest
          (ptr + 4 + length e.conn + 1 + (length e.address + 1) + (length e.type + 1))
          (omega (arith, length-ltoa e.id)) (omega (arith, length-read_entry e rest)),
      atol-ltoa e.id (omega arith),
      positive_id e.id pos_id small_id,
    ),
    omega (arith, length-read_entry e rest),
  )

  scan_all-read_request :
      (fuel : ℕ) (es : List ReadEntry) (l : List Param) (ptr : ℕ)
      → IsReadable es
      → ptr + length (read_request es) + 1 ≤ size
      → length es < fuel
      → (c : Cursor) × (scan_all size fuel ole true l (at (read_request es) ptr)
          ≡ got (l ++ map entry es) c)
  unfolding scan_all read_request
  scan_all-read_request zero es l ptr h fits f = absurd (omega arith)
  scan_all-read_request (suc fuel) [] l ptr h fits f =
      (at [] ptr, rw (scan_entry-nil size ole true l ptr, append-nil))
  scan_all-read_request (suc fuel) (e ∷ es) l ptr h fits f =
      let (ptr', e₁, fits') = scan_read-entry e es l (read_request es) ptr h fits in
      let (c, e₂) =
        scan_all-read_request fuel es (l ++ entry e ∷ []) ptr' h.6 fits' (omega arith) in
      (c, rw (e₁, e₂, append_assoc l (entry e ∷ []) (map entry es)))

length-read_request : (es : List ReadEntry) → length es ≤ length (read_request es)
unfolding read_request
length-read_request [] = omega arith
length-read_request (e ∷ es) =
    omega (arith, length-read_request es, length-read_entry e (read_request es))

-- Parsing a read request whose texts are shorter than a thousand bytes, and whose numbers are
-- positive, gives its entries in order: each with its number and the name "S7:[connection]address".
pub parse_request-read_request :
    (ole : Ole) (es : List ReadEntry)
    → IsReadable es
    → (c : Cursor) × (parse_request ole true (read_request es) ≡ got (map entry es) c)
unfolding parse_request
parse_request-read_request ole es h =
    scan_all-read_request ole (length (read_request es) + 1) (suc (length (read_request es))) es []
      0 h (omega arith) (omega (arith, length-read_request es))
