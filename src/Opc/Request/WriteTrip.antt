-- ===== src/Opc/Request/WriteTrip.antt =====
-- `ParseRequest` finds the entries of a write request that `AddData` put together.
use mathlib.Core.List.{append_assoc, append-nil}
use edps_plc_data_acquisitio.Base.{
  true, none, leb, sym, ◌∙◌, length-append, ℕ, zero, suc, ◌+◌, ◌≤◌, ◌<◌, ◌≡◌, ap, refl, false, List,
  [], ◌∷◌, ◌++◌, Bytes, codes, length, arith,
}
use edps_plc_data_acquisitio.Opc.Frame.{frame, three_digits}
use edps_plc_data_acquisitio.Opc.Params.{Param, Ole, Variant, value_of, add_item_value, bytes_read}
use edps_plc_data_acquisitio.Opc.Request.{
  Cursor, Scan, got, scan_write, scan_entry, scan_all, look, parse_request,
}
use edps_plc_data_acquisitio.Opc.Request.Values.{expected_value, value_of-expected_value}
use edps_plc_data_acquisitio.Opc.Request.Encode.{
  WriteEntry, printf_03, printed, add_data, write_request, IsWritable,
}
use edps_plc_data_acquisitio.Opc.Request.RoundTrip.{
  at, length-frame, scan_entry-nil, skip_value-frame, copy_value-frame, scan_names-frames,
}

printed-frame : (v : Bytes) → length v < 1000 → printed v ≡ frame v
unfolding printf_03 frame
printed-frame v h = ground arith

zeros : codes "000" ≡ frame []
unfolding frame three_digits
zeros = refl

abbrev framed : WriteEntry → Bytes → Bytes
framed e rest =
    frame []
    ++ (frame e.conn ++ (frame e.address ++ (frame e.type ++ (frame e.text ++ (frame [] ++ rest)))))

abbrev Fits : WriteEntry → Type 0
Fits e = IsWritable (e ∷ [])

add_data-framed : (e : WriteEntry) (rest : Bytes) → Fits e → add_data e rest ≡ framed e rest
unfolding add_data
add_data-framed e rest (hc, ha, ht, hv, _) =
    rw
      (
        printed-frame e.conn hc,
        printed-frame e.address ha,
        printed-frame e.type ht,
        printed-frame e.text hv,
      )
      (ap
        (λ (z : Bytes).
          z
          ++ (frame e.conn ++ (frame e.address ++ (frame e.type ++ (frame e.text ++ (z ++ rest))))))
        zeros)

length-framed :
    (e : WriteEntry) (rest : Bytes)
    → length (framed e rest)
      ≡ 18 + length e.conn + length e.address + length e.type + length e.text + length rest
length-framed e rest = omega (
  arith,
  length-frame [] rest,
  length-frame e.text (frame [] ++ rest),
  length-frame e.type (frame e.text ++ (frame [] ++ rest)),
  length-frame e.address (frame e.type ++ (frame e.text ++ (frame [] ++ rest))),
  length-frame e.conn (frame e.address ++ (frame e.type ++ (frame e.text ++ (frame [] ++ rest)))),
  length-frame []
      (frame e.conn ++ (frame e.address ++ (frame e.type ++ (frame e.text ++ (frame [] ++ rest))))),
)

abbrev add_written : Ole → WriteEntry → List Param → List Param
add_written ole e l =
    (add_item_value ole (length l + 1) (codes "S7:[" ++ e.conn ++ b']' ∷ e.address) e.type e.text
      l).0

-- The entries, numbered from `n` on.
abbrev pub numbered : Ole → ℕ → List WriteEntry → List Param
numbered ole n [] = []
numbered ole n (e ∷ es) =
    record {
      par_id = n;
      item_id = codes "S7:[" ++ e.conn ++ b']' ∷ e.address;
      val = expected_value ole e.type e.text;
      item = none;
    }
    ∷ numbered ole (n + 1) es

-- No STRING*n is longer than its text with the terminator.
abbrev pub InText : Ole → List WriteEntry → Type 0
InText ole [] = Unit {0}
InText ole (e ∷ es) = (bytes_read ole e.type ≤ length e.text + 1) × InText ole es

abbrev written : Ole → List WriteEntry → List Param → List Param
written ole [] l = l
written ole (e ∷ es) l = written ole es (add_written ole e l)

written-numbered :
    (ole : Ole) (es : List WriteEntry) (l : List Param)
    → written ole es l ≡ l ++ numbered ole (length l + 1) es
unfolding add_item_value
written-numbered ole [] l = sym (append-nil l)
written-numbered ole (e ∷ es) l =
    written-numbered ole es (add_written ole e l)
    ∙ ap (λ n. add_written ole e l ++ numbered ole n es)
        (omega (arith, length-append l (entry (value_of ole e.type e.text).0 ∷ [])))
    ∙ append_assoc l (entry (value_of ole e.type e.text).0 ∷ [])
        (numbered ole (length l + 1 + 1) es)
    ∙ ap (λ v. l ++ entry v ∷ numbered ole (length l + 1 + 1) es)
        (value_of-expected_value ole e.type e.text)
  where
    entry : Variant → Param
    entry v = record {
      par_id = length l + 1;
      item_id = codes "S7:[" ++ e.conn ++ b']' ∷ e.address;
      val = v;
      item = none;
    }

module _ (ole : Ole) (size : ℕ) where
  abbrev Scanned : Scan (List Param) → List Param → Bytes → Type 0
  Scanned r l rest = (ptr : ℕ) × (r ≡ got l (at rest ptr)) × (ptr + length rest + 1 ≤ size)

  scan_framed :
      (e : WriteEntry) (l : List Param) (rest : Bytes) (ptr : ℕ)
      → Fits e
      → bytes_read ole e.type ≤ length e.text + 1
      → ptr + length (framed e rest) + 1 ≤ size
      → Scanned (scan_entry size ole false l (at (framed e rest) ptr)) (add_written ole e l) rest
  unfolding scan_entry scan_write look
  scan_framed e l rest ptr (hc, ha, ht, hv, _) inside fits = (
    end + (length e.text + 1),
    rw (
      scan_names-frames size [] e.conn e.address e.type (frame e.text ++ (frame [] ++ rest)) ptr
          (omega arith) hc ha ht (omega (arith, long, long')),
      copy_value-frame size e.text (frame [] ++ rest) end hv (omega (arith, long)),
      skip_value-frame [] rest (end + (length e.text + 1)) (omega arith),
      in_block,
    ),
    omega (arith, long),
  )
    where
      end : ℕ
      end = ptr + 4 + length e.conn + 1 + (length e.address + 1) + (length e.type + 1)

      long :
          length (framed e rest)
          ≡ 18 + length e.conn + length e.address + length e.type + length e.text + length rest
      long = length-framed e rest

      long' : length (frame e.text ++ (frame [] ++ rest)) ≡ 6 + length e.text + length rest
      long' = omega (arith, length-frame e.text (frame [] ++ rest), length-frame [] rest)

      in_block :
          leb (end + (length e.text + 1) + bytes_read ole e.type) (size + (length e.text + 1))
          ≡ true
      in_block = ground (arith, long)

  scan_write-entry :
      (e : WriteEntry) (l : List Param) (rest : Bytes) (ptr : ℕ)
      → Fits e
      → bytes_read ole e.type ≤ length e.text + 1
      → ptr + length (add_data e rest) + 1 ≤ size
      → Scanned (scan_entry size ole false l (at (add_data e rest) ptr)) (add_written ole e l) rest
  scan_write-entry e l rest ptr h inside =
      rw (add_data-framed e rest h) (scan_framed e l rest ptr h inside)

  scan_all-write_request :
      (fuel : ℕ) (es : List WriteEntry) (l : List Param) (ptr : ℕ)
      → IsWritable es
      → InText ole es
      → ptr + length (write_request es) + 1 ≤ size
      → length es < fuel
      → (c : Cursor) × (scan_all size fuel ole false l (at (write_request es) ptr)
          ≡ got (written ole es l) c)
  unfolding scan_all write_request
  scan_all-write_request zero es l ptr h inside fits f = absurd (omega arith)
  scan_all-write_request (suc fuel) [] l ptr h inside fits f =
      (at [] ptr, rw (scan_entry-nil size ole false l ptr))
  scan_all-write_request (suc fuel) (e ∷ es) l ptr (hc, ha, ht, hv, hs) (inside, all_inside) fits
        f =
      let (ptr', e₁, fits') =
        scan_write-entry e l (write_request es) ptr (hc, ha, ht, hv, tt) inside fits in
      let (c, e₂) =
        scan_all-write_request fuel es (add_written ole e l) ptr' hs all_inside fits'
          (omega arith) in
      (c, rw (e₁, e₂))

length-write_request :
    (es : List WriteEntry) → IsWritable es → length es ≤ length (write_request es)
unfolding write_request
length-write_request [] h = omega arith
length-write_request (e ∷ es) (hc, ha, ht, hv, hs) =
    rw (add_data-framed e (write_request es) (hc, ha, ht, hv, tt))
      (omega (arith, length-write_request es hs, length-framed e (write_request es)))

-- Parsing a write request that `AddData` put together from texts shorter than a thousand bytes, where
-- no STRING*n is longer than its text with the terminator, gives its entries in order: each with its
-- place as its number, counted from 1, with the name "S7:[connection]address", with no item yet, and
-- with the value of its type and text: a number, the text in n bytes for STRING*n where OLE creates
-- the array, and else nothing.
pub parse_request-write_request :
    (ole : Ole) (es : List WriteEntry)
    → IsWritable es
    → InText ole es
    → (c : Cursor) × (parse_request ole false (write_request es) ≡ got (numbered ole 1 es) c)
unfolding parse_request
parse_request-write_request ole es h inside =
    let (c, e) = parsed in (c, e ∙ ap (λ l. got l c) (written-numbered ole es []))
  where
    parsed : (c : Cursor) × (parse_request ole false (write_request es) ≡ got (written ole es []) c)
    parsed =
        scan_all-write_request ole (length (write_request es) + 1) (suc (length (write_request es)))
          es [] 0 h inside (omega arith) (omega (arith, length-write_request es h))
