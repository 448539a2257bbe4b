-- ===== src/Opc/Request/Values.antt =====
-- The value of a type and a text, as `AddItem` of OpcS7/EdpsParams.cpp is to store it.
use edps_plc_data_acquisitio.Base.{
  Bool, true, false, ◌&&◌, Option, none, some, bytes_eq, has_prefix, drop, take, inl, inr,
  Bool-cases, sym, ◌∙◌, if◌then◌else◌, ◌-◌, ℕ, zero, suc, ◌≡◌, ap, refl, List, [], ◌∷◌, ◌++◌, Bytes,
  codes, length, arith,
}
use edps_plc_data_acquisitio.Opc.Params.{
  Ole, Variant, VarType, empty, scalar, byte_array, vt_bool, vt_r4, vt_i4, vt_i2, vt_ui1, fill,
  value_of,
}
use edps_plc_data_acquisitio.Crt.{atol}

-- The types of a number, each with that of its VARIANT.
abbrev type_names : List (Bytes × VarType)
type_names =
    (codes "BIT", vt_bool)
    ∷ (codes "FLOAT", vt_r4)
    ∷ (codes "LONG", vt_i4)
    ∷ (codes "INTEGER", vt_i2)
    ∷ (codes "BYTE", vt_ui1)
    ∷ (codes "CHAR", vt_ui1)
    ∷ []

abbrev type_named : Bytes → List (Bytes × VarType) → Option VarType
type_named type [] = none
type_named type ((name, t) ∷ names) = if bytes_eq type name then some t else type_named type names

abbrev zeros_of : ℕ → Bytes
zeros_of zero = []
zeros_of (suc n) = 0 ∷ zeros_of n

-- A text in `n` bytes: cut off, or with zeros behind it.
abbrev pub padded : ℕ → Bytes → Bytes
padded n text = take n text ++ zeros_of (n - length text)

-- The value of a type and a text: a number of the type of that name, `atof` of the text for FLOAT
-- and `atol` of it for the others; so many bytes for STRING*n, where OLE creates the array; else
-- nothing.
abbrev number_of : Ole → Bytes → Option VarType → Option Variant
number_of ole text none = none
number_of ole text (some vt_r4) = some (scalar vt_r4 (ole.atof text))
number_of ole text (some t) = some (scalar t (atol text))

abbrev string_of : Ole → Bytes → Bytes → Variant
string_of ole type text =
    let n = atol (drop 7 type) in
    if has_prefix (codes "STRING*") type && ole.creates n then byte_array (padded n text) else empty

abbrev or_string : Ole → Bytes → Bytes → Option Variant → Variant
or_string ole type text none = string_of ole type text
or_string ole type text (some v) = v

abbrev pub expected_value : Ole → Bytes → Bytes → Variant
expected_value ole type text =
    or_string ole type text (number_of ole text (type_named type type_names))

fill-padded : (n : ℕ) (text : Bytes) → fill n text ≡ padded n text
unfolding fill
fill-padded zero text = ap zeros_of (none_more (length text))
  where
    none_more : (k : ℕ) → 0 ≡ 0 - k
    none_more k = omega arith
fill-padded (suc n) [] =
    ap (◌∷◌ 0)
      (fill-padded n [] ∙ ap (λ l. l ++ zeros_of (n - 0)) (take_nil n) ∙ ap zeros_of (all_more n))
    ∙ ap zeros_of (sym (all_more (suc n)))
  where
    all_more : (k : ℕ) → k - 0 ≡ k
    all_more k = omega arith

    take_nil : (k : ℕ) → take {A = ℕ} k [] ≡ []
    take_nil zero = refl
    take_nil (suc k) = refl
fill-padded (suc n) (c ∷ text) =
    ap (◌∷◌ c) (fill-padded n text ∙ ap (λ k. take n text ++ zeros_of k) (one_less (length text)))
  where
    one_less : (k : ℕ) → n - k ≡ suc n - suc k
    one_less k = omega arith

abbrev value_only : Variant × Bool → Variant
value_only (v, done) = v

pub value_of-expected_value :
    (ole : Ole) (type text : Bytes) → (value_of ole type text).0 ≡ expected_value ole type text
unfolding value_of
value_of-expected_value ole type text = elim (Bool-cases (bytes_eq type (codes "BIT"))) [
  | inl e ↦ rw e refl
  | inr n1 ↦ elim (Bool-cases (bytes_eq type (codes "FLOAT"))) [
    | inl e ↦ rw (n1, e) refl
    | inr n2 ↦ elim (Bool-cases (bytes_eq type (codes "LONG"))) [
      | inl e ↦ rw (n1, n2, e) refl
      | inr n3 ↦ elim (Bool-cases (bytes_eq type (codes "INTEGER"))) [
        | inl e ↦ rw (n1, n2, n3, e) refl
        | inr n4 ↦ elim (Bool-cases (bytes_eq type (codes "BYTE"))) [
          | inl e ↦ rw (n1, n2, n3, n4, e) refl
          | inr n5 ↦ elim (Bool-cases (bytes_eq type (codes "CHAR"))) [
            | inl e ↦ rw (n1, n2, n3, n4, n5, e) refl
            | inr n6 ↦
                rw (n1, n2, n3, n4, n5, n6)
                  (of_string (has_prefix (codes "STRING*") type) (ole.creates (atol (drop 7 type))))
          ]
        ]
      ]
    ]
  ]
]
  where
    of_string :
        (is_string creates : Bool)
        → value_only (
            if is_string
            then (if creates
                then (byte_array (fill (atol (drop 7 type)) text), true)
                else (empty, false))
            else (empty, false))
          ≡ (if is_string && creates then byte_array (padded (atol (drop 7 type)) text) else empty)
    of_string false creates = refl
    of_string true false = refl
    of_string true true = ap byte_array (fill-padded (atol (drop 7 type)) text)
