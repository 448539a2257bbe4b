-- ===== src/Opc/Answer/Fits.antt =====
-- `GetMReadResult` stays inside its block, and gives the numbers and the texts in order.
use mathlib.Core.List.{append_assoc, append-nil}
use edps_plc_data_acquisitio.Base.{
  ℕ, ◌+◌, ◌-◌, ◌*◌, ◌%◌, ◌^◌, ◌≤◌, ◌<◌, ◌≡◌, refl, true, false, Option, none, some, List, [], ◌∷◌,
  ◌++◌, Bytes, length, length-append, ltb, ◌==◌, arith, Bool-cases, Option-cases, inl, inr, sym,
  ◌∙◌, if◌then◌else◌,
}
use edps_plc_data_acquisitio.Crt.{ltoa}
use edps_plc_data_acquisitio.Crt.RoundTrip.{length-ltoa}
use edps_plc_data_acquisitio.Opc.Frame.{three_digits, frame}
use edps_plc_data_acquisitio.Opc.Params.{Ole}
use edps_plc_data_acquisitio.Opc.Answer.{
  Reading, is_good, Value, overflow, variant_text, get_value_variant, Block, grow, put, put_value,
  put_all, get_mread_result,
}
use edps_plc_data_acquisitio.Opc.Answer.Values.{
  GcvtLaws, AllShort, Fitting, fitting_text, fitting_error, get_value_variant-Fitting, value_text,
  score, long_array,
}

abbrev block : ℕ → Bytes → ℕ → Block
block n out ok = record { buf_len = n; out = out; ok = ok }

-- The block after a step: what it holds now, not more than fits, and grown by 200 bytes at most.
abbrev Stays : Block → Option Block → Bytes → ℕ → ℕ → Type 0
Stays b r added good most =
    (n : ℕ) × (r ≡ some (block n (b.out ++ added) (b.ok + good)))
    × (length (b.out ++ added) ≤ n)
    × (n ≤ b.buf_len + most)

-- A number with its length and a text with its length.
abbrev pub pair : Bytes → Bytes → Bytes
pair id s = frame id ++ frame s

length-pair : (id s : Bytes) → length (pair id s) ≡ 6 + length id + length s
unfolding frame three_digits
length-pair id s = omega (arith, length-append id (three_digits (length s) ++ s))

pair-pieces :
    (id s : Bytes) → three_digits (length id) ++ (id ++ (three_digits (length s) ++ s)) ≡ pair id s
unfolding frame
pair-pieces id s =
    rw (append_assoc (three_digits (length id)) id (three_digits (length s) ++ s)) refl

-- The block is as large as what follows needs.
grow-enough :
    (need : ℕ) (b : Block)
    → need < 100
    → length b.out ≤ b.buf_len
    → b.buf_len + 200 < 2 ^ 32
    → (n : ℕ) × (grow need b ≡ record b { buf_len = n })
      × (length b.out + (need + 6) < n)
      × (n ≤ b.buf_len + 200)
unfolding grow
grow-enough need b small fits low =
    elim (Bool-cases (ltb ((b.buf_len + (2 ^ 32 - length b.out)) % 2 ^ 32) (need + 7))) [
      | inl e ↦ ((b.buf_len + (need + 100)) % 2 ^ 32, rw e refl, ground arith, ground arith)
      | inr e ↦ (b.buf_len, rw e refl, ground arith, omega arith)
    ]

put-Stays :
    (id s : Bytes) (good : ℕ) (b : Block)
    → length id ≤ 11
    → length s < 64
    → length b.out ≤ b.buf_len
    → b.buf_len + 200 < 2 ^ 32
    → Stays b (put id s good b) (pair id s) good 200
unfolding put
put-Stays id s good b short_id short fits low =
    let (n, grown, room, most) = grow-enough (length id + length s) b (omega arith) fits low in
    let long = length-append b.out (pair id s) in
    let inside : ltb (length (b.out ++ pair id s)) n ≡ true =
      ground (arith, long, length-pair id s) in
    (n, rw (grown, pair-pieces id s, inside) refl, omega (arith, long, length-pair id s), most)

put_value-Stays :
    (id : ℕ) {v : Value} (b : Block)
    → Fitting v
    → length b.out ≤ b.buf_len
    → b.buf_len + 200 < 2 ^ 32
    → Stays b (put_value id v b) (pair (ltoa id) (value_text v)) (score v) 200
unfolding put_value
put_value-Stays id b (fitting_text {s} h) fits low =
    put-Stays (ltoa id) s 1 b (length-ltoa id) h fits low
put_value-Stays id b (fitting_error {s} h) fits low =
    put-Stays (ltoa id) s 0 b (length-ltoa id) h fits low

module _ (ole : Ole) where
  -- The answer that is meant: a pair for each parameter, and the number of good values.
  unfoldable pub pairs : List Reading → Bytes
  pairs [] = []
  pairs (q ∷ qs) = pair (ltoa q.par_id) (value_text (get_value_variant ole 64 q.item)) ++ pairs qs

  unfoldable pub good_count : List Reading → ℕ
  good_count [] = 0
  good_count (q ∷ qs) = score (get_value_variant ole 64 q.item) + good_count qs

  put_all-some :
      (q : Reading) (qs : List Reading) (b b' : Block)
      → put_value q.par_id (get_value_variant ole 64 q.item) b ≡ some b'
      → put_all ole (q ∷ qs) b ≡ put_all ole qs b'
  unfolding put_all
  put_all-some q qs b b' e = rw (e, put_all) refl

  put_all-Stays :
      GcvtLaws ole
      → (qs : List Reading) (b : Block) → AllShort qs
      → length b.out ≤ b.buf_len
      → b.buf_len + 200 * (length qs + 1) < 2 ^ 32
      → Stays b (put_all ole qs b) (pairs qs) (good_count qs) (200 * length qs)
  unfolding put_all pairs good_count
  put_all-Stays laws [] b h fits low = (
    b.buf_len,
    rw (append-nil b.out, zero_right b.ok) refl,
    rw (append-nil b.out) fits,
    omega arith,
  )
    where
      zero_right : (k : ℕ) → k + 0 ≡ k
      zero_right k = omega arith
  put_all-Stays laws (q ∷ qs) b (h, hs) fits low =
      let v = get_value_variant ole 64 q.item in
      let (n, e, fits', most) =
        put_value-Stays q.par_id b (get_value_variant-Fitting ole laws q.item h) fits
          (omega arith) in
      let p = pair (ltoa q.par_id) (value_text v) in
      let (m, e', fits'', most') =
        put_all-Stays laws qs (record { buf_len = n; out = b.out ++ p; ok = b.ok + score v }) hs
          fits' (omega arith) in
      (
        m,
        put_all-some q qs b _ e ∙ e' ∙ assoc m p (score v),
        rw (sym (append_assoc b.out p (pairs qs))) fits'',
        omega arith,
      )
    where
      assoc :
          (m : ℕ) (p : Bytes) (k : ℕ)
          → some (block m ((b.out ++ p) ++ pairs qs) (b.ok + k + good_count qs))
            ≡ some (block m (b.out ++ (p ++ pairs qs)) (b.ok + (k + good_count qs)))
      assoc m p k =
          let add : b.ok + k + good_count qs ≡ b.ok + (k + good_count qs) = omega arith in
          rw (append_assoc b.out p (pairs qs), add) refl

  -- Where the texts of `_gcvt` are short, for a list of at most 2 ^ 24 parameters whose array values
  -- are shorter than 64 bytes, `GetMReadResult` writes nowhere outside its buffers and gives the parameters in order, each as
  -- its number and its text with their lengths in front, and the count of good values; where no
  -- value is good, it gives NULL.
  pub get_mread_result-pairs :
      GcvtLaws ole
      → (qs : List Reading) → AllShort qs
      → length qs ≤ 2 ^ 24
      → get_mread_result ole qs
        ≡ some ((if good_count qs == 0 then none else some (pairs qs)), good_count qs)
  unfolding get_mread_result
  get_mread_result-pairs laws qs h few =
      let (n, e, _, _) =
        put_all-Stays laws qs (record { buf_len = length qs * 20 % 2 ^ 32; out = []; ok = 0 }) h
          (omega arith) (omega arith) in
      let zero_left : 0 + good_count qs ≡ good_count qs = omega arith in
      rw (e, get_mread_result, zero_left) refl

  long_array-overflow :
      (id quality : ℕ) (bytes : Bytes)
      → is_good quality ≡ true
      → ole.accesses bytes ≡ true
      → 64 ≤ length bytes
      → get_value_variant ole 64 (long_array id quality bytes).item ≡ overflow
  unfolding get_value_variant variant_text
  long_array-overflow id quality bytes good readable long = rw (good, readable, outside) refl
    where
      outside : ltb (length bytes) 64 ≡ false
      outside = ground arith

  put_all_overflows :
      (before : List Reading) (id quality : ℕ) (bytes : Bytes) (after : List Reading) (b : Block)
      → is_good quality ≡ true
      → ole.accesses bytes ≡ true
      → 64 ≤ length bytes
      → put_all ole (before ++ long_array id quality bytes ∷ after) b ≡ none
  unfolding put_all put_value
  put_all_overflows [] id quality bytes after b good readable long =
      rw (long_array-overflow id quality bytes good readable long, put_value, put_all) refl
  put_all_overflows (q ∷ qs) id quality bytes after b good readable long =
      elim (Option-cases (put_value q.par_id (get_value_variant ole 64 q.item) b)) [
        | inl e ↦ rw (e, put_all) refl
        | inr (b', e) ↦
            put_all-some q (qs ++ long_array id quality bytes ∷ after) b b' e
            ∙ put_all_overflows qs id quality bytes after b' good readable long
      ]

  -- Where an item of the list has good quality and an array of 64 bytes or more, which OLE gives
  -- access to, `GetMReadResult` writes outside a buffer.
  pub get_mread_result_overflows :
      (before : List Reading) (id quality : ℕ) (bytes : Bytes) (after : List Reading)
      → is_good quality ≡ true
      → ole.accesses bytes ≡ true
      → 64 ≤ length bytes
      → get_mread_result ole (before ++ long_array id quality bytes ∷ after) ≡ none
  unfolding get_mread_result
  get_mread_result_overflows before id quality bytes after good readable long =
      rw (put_all_overflows before id quality bytes after _ good readable long, get_mread_result)
        refl
