-- ===== src/Examples/Opc.antt =====
-- OpcS7/ at concrete inputs.
use edps_plc_data_acquisitio.Base.{
  ◌≤◌, ℕ, some, suc, length, List, Bytes, ◌==◌, if◌then◌else◌, replicate, length-replicate, ◌≡◌,
  refl, true, false, none, [], ◌∷◌, ◌++◌, codes, map, arith, has_prefix,
}
use edps_plc_data_acquisitio.Crt.{ltoa}
use edps_plc_data_acquisitio.Opc.Frame.{three_digits, field, split_field, frame}
use edps_plc_data_acquisitio.Opc.Frame.RoundTrip.{split_field-frame}
use edps_plc_data_acquisitio.Opc.Params.{
  scalar, vt_i4, Ole, empty, get_list_name, ids_text, hash_of, add_hash, bytes_read,
}
use edps_plc_data_acquisitio.Opc.Answer.{
  Reading, is_good, up_to_nul, scalar_text, variant_text, get_value_variant, get_mread_result,
}
use edps_plc_data_acquisitio.Opc.Answer.Values.{GcvtLaws, long_array}
use edps_plc_data_acquisitio.Opc.Answer.Fits.{
  pairs, good_count, get_mread_result-pairs, get_mread_result_overflows,
}
use edps_plc_data_acquisitio.Opc.Answer.Reader.{fields, texts, get_mread_result-fields}
use edps_plc_data_acquisitio.Opc.Request.{
  Cursor, got, over_both, parse_request, scan_all, scan_entry, scan_read, scan_names, skip_value,
  copy_value, room,
}
use edps_plc_data_acquisitio.Opc.Frame.{char_numeric, field_of}
use edps_plc_data_acquisitio.Opc.Request.Bounds.{Contained, parse_request-Contained}
use edps_plc_data_acquisitio.Opc.Request.Encode.{ReadEntry, WriteEntry, read_request, write_request}
use edps_plc_data_acquisitio.Opc.Request.RoundTrip.{entry, parse_request-read_request}
use edps_plc_data_acquisitio.Opc.Request.WriteTrip.{numbered, parse_request-write_request}

abbrev ole : Ole
ole = record {
  creates = λ n. true;
  accesses = λ bytes. true;
  atof = λ text. 0;
  gcvt_flt = λ digits f. codes "0.";
  gcvt_dbl = λ digits d. codes "0.";
}

abbrev dint : ReadEntry
dint = record {
  point = codes "CP_H1_1";
  conn = codes "CPA1RPT";
  address = codes "DB125,DINT0";
  type = codes "LONG";
  id = 3_288;
}

abbrev pump : WriteEntry
pump = record {
  conn = codes "CPA1RPT";
  address = codes "DB125,INT4";
  type = codes "INTEGER";
  text = codes "17";
}

-- The name of a list with one entry does not fit its block of ten bytes.
name_overflows :
    get_list_name (
      record { par_id = 3_288; item_id = codes "S7:[CPA1RPT]DB125,DINT0"; val = empty; item = none }
      ∷ [])
    ≡ none
unfolding get_list_name ids_text hash_of add_hash ltoa
name_overflows = refl

is_good_c0 : is_good 0xc0 ≡ true
unfolding is_good
is_good_c0 = refl

split_field-frame_example :
    split_field (frame (codes "LONG") ++ codes "003288") ≡ field (codes "LONG") (codes "003288")
split_field-frame_example = split_field-frame (codes "LONG") (codes "003288") (omega arith)

parse_request-Contained_example : Contained (parse_request ole true (codes "000003ABC"))
parse_request-Contained_example = parse_request-Contained ole true (codes "000003ABC")

-- A length of 999 with one byte behind it: the copy leaves the request and the block of eight bytes.
parse_request_overflows : parse_request ole true (codes "000999A") ≡ over_both
unfolding parse_request scan_all scan_entry scan_read scan_names skip_value copy_value room
    split_field char_numeric field_of
parse_request_overflows = refl

parse_request-read_request_example :
    (c : Cursor) × (parse_request ole true (read_request (dint ∷ dint ∷ []))
      ≡ got (map entry (dint ∷ dint ∷ [])) c)
parse_request-read_request_example = parse_request-read_request ole (dint ∷ dint ∷ []) (
  omega arith,
  omega arith,
  omega arith,
  omega arith,
  omega arith,
  omega arith,
  (omega arith, omega arith, omega arith, omega arith, omega arith, omega arith, tt),
)

parse_request-write_request_example :
    (c : Cursor) × (parse_request ole false (write_request (pump ∷ []))
      ≡ got (numbered ole 1 (pump ∷ [])) c)
unfolding bytes_read has_prefix
parse_request-write_request_example =
    parse_request-write_request ole (pump ∷ [])
      (omega arith, omega arith, omega arith, omega arith, tt) (omega arith, tt)

ole-GcvtLaws : GcvtLaws ole
ole-GcvtLaws = record { flt_fits = λ digits f. omega arith; dbl_fits = λ digits d. omega arith }

abbrev readings : List Reading
readings =
    record { par_id = 3_288; item = some (record { quality = 0xc0; value = scalar vt_i4 17 }) }
    ∷ record { par_id = 3_289; item = none }
    ∷ []

get_mread_result-pairs_example :
    get_mread_result ole readings
    ≡ some (
      if good_count ole readings == 0 then none else some (pairs ole readings),
      good_count ole readings,
    )
get_mread_result-pairs_example =
    get_mread_result-pairs ole ole-GcvtLaws readings (tt, (tt, tt)) (omega arith)

answer_text : pairs ole readings ≡ codes "0043288002170043289010Error Read"
unfolding pairs get_value_variant variant_text scalar_text is_good up_to_nul ltoa frame three_digits
answer_text = refl

one_good : good_count ole readings ≡ 1
unfolding good_count get_value_variant variant_text scalar_text is_good ltoa
one_good = refl

get_mread_result-fields_example :
    (r : Bytes) × (get_mread_result ole readings ≡ some (some r, good_count ole readings))
    × (fields (suc (length r)) r ≡ texts ole readings)
get_mread_result-fields_example =
    get_mread_result-fields ole ole-GcvtLaws readings (tt, (tt, tt)) (omega arith)
      (omega (arith, one_good))

abbrev letters : Bytes
letters = replicate 64 65

letters_long : 64 ≤ length letters
letters_long = omega (arith, length-replicate {A = ℕ} 64 65)

get_mread_result_overflows_example :
    get_mread_result ole ([] ++ long_array 1 0xc0 letters ∷ readings) ≡ none
get_mread_result_overflows_example =
    get_mread_result_overflows ole [] 1 0xc0 letters readings is_good_c0 refl letters_long
