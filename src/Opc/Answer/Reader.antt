-- ===== src/Opc/Answer/Reader.antt =====
-- Reading an answer: `GetNextValue` again and again gives the number and the text of each parameter.
use mathlib.Core.List.{append_assoc}
use edps_plc_data_acquisitio.Base.{
  ℕ, zero, suc, ◌+◌, ◌^◌, ◌≤◌, ◌<◌, ◌≡◌, refl, ap, ◌∙◌, false, List, [], ◌∷◌, ◌++◌, Bytes, Option,
  some, none, length, length-append, ◌==◌, arith, if◌then◌else◌,
}
use edps_plc_data_acquisitio.Crt.{ltoa}
use edps_plc_data_acquisitio.Crt.RoundTrip.{length-ltoa}
use edps_plc_data_acquisitio.Opc.Frame.{no_field, field, overrun, split_field, frame, three_digits}
use edps_plc_data_acquisitio.Opc.Frame.RoundTrip.{split_field-frame}
use edps_plc_data_acquisitio.Opc.Params.{Ole}
use edps_plc_data_acquisitio.Opc.Answer.{Reading, get_value_variant, get_mread_result}
use edps_plc_data_acquisitio.Opc.Answer.Values.{
  GcvtLaws, AllShort, value_text, get_value_variant-short,
}
use edps_plc_data_acquisitio.Opc.Answer.Fits.{pair, pairs, good_count, get_mread_result-pairs}

-- So many fields from the front of a text.
unfoldable pub fields : ℕ → Bytes → List Bytes
fields zero s = []
fields (suc fuel) s = elim (split_field s) [
  | field v rest ↦ v ∷ fields fuel rest
  | no_field ↦ []
  | overrun n ↦ []
]

fields-frame :
    (fuel : ℕ) (v rest : Bytes)
    → length v < 1000
    → fields (suc fuel) (frame v ++ rest) ≡ v ∷ fields fuel rest
unfolding fields
fields-frame fuel v rest h = rw (split_field-frame v rest h, fields) refl

fields-pair :
    (fuel : ℕ) (id s rest : Bytes)
    → length id < 1000
    → length s < 1000
    → fields (suc (suc fuel)) (pair id s ++ rest) ≡ id ∷ s ∷ fields fuel rest
fields-pair fuel id s rest hi hs =
    rw (append_assoc (frame id) (frame s) rest)
      (fields-frame (suc fuel) id (frame s ++ rest) hi ∙ ap (◌∷◌ id) (fields-frame fuel s rest hs))

length-pair-rest : (id s rest : Bytes) → 2 + length rest ≤ length (pair id s ++ rest)
unfolding frame three_digits
length-pair-rest id s rest =
    omega (arith, length-append (pair id s) rest, length-append id (frame s))

abbrev reply : Option Bytes → ℕ → Option (Option Bytes × ℕ)
reply r good = some (r, good)

no_more : split_field [] ≡ no_field
unfolding split_field
no_more = refl

module _ (ole : Ole) where
  -- The number and the text of each parameter.
  unfoldable pub texts : List Reading → List Bytes
  texts [] = []
  texts (q ∷ qs) = ltoa q.par_id ∷ value_text (get_value_variant ole 64 q.item) ∷ texts qs

  fields-pairs :
      GcvtLaws ole
      → (qs : List Reading) (fuel : ℕ) → AllShort qs
      → length (pairs ole qs) < fuel
      → fields fuel (pairs ole qs) ≡ texts qs
  unfolding fields pairs texts
  fields-pairs laws qs zero h f = absurd (omega arith)
  fields-pairs laws [] (suc fuel) h f = rw (no_more, fields) refl
  fields-pairs laws (q ∷ qs) (suc zero) h f = absurd (
      omega (
        arith,
        length-pair-rest (ltoa q.par_id) (value_text (get_value_variant ole 64 q.item))
            (pairs ole qs),
      ))
  fields-pairs laws (q ∷ qs) (suc (suc fuel)) (h, hs) f =
      let s = value_text (get_value_variant ole 64 q.item) in
      fields-pair fuel (ltoa q.par_id) s (pairs ole qs) (omega (arith, length-ltoa q.par_id))
        (omega (arith, get_value_variant-short ole laws q.item h))
      ∙ ap (λ z. ltoa q.par_id ∷ s ∷ z)
          (fields-pairs laws qs fuel hs
            (omega (arith, length-pair-rest (ltoa q.par_id) s (pairs ole qs))))

  -- Where the texts of `_gcvt` are short, a value is good, there are at most 2 ^ 24 parameters and
  -- arrays are shorter than 64 bytes, reading the result of `GetMReadResult` with `GetNextValue`
  -- gives the number and the text of each parameter in order.
  pub get_mread_result-fields :
      GcvtLaws ole
      → (qs : List Reading) → AllShort qs
      → length qs ≤ 2 ^ 24
      → 0 < good_count ole qs
      → (r : Bytes) × (get_mread_result ole qs ≡ some (some r, good_count ole qs))
        × (fields (suc (length r)) r ≡ texts qs)
  get_mread_result-fields laws qs h few good = (
    pairs ole qs,
    get_mread_result-pairs ole laws qs h few ∙ answered,
    fields-pairs laws qs (suc (length (pairs ole qs))) h (omega arith),
  )
    where
      some_good : (good_count ole qs == 0) ≡ false
      some_good = ground arith

      answered :
          reply (if good_count ole qs == 0 then none else some (pairs ole qs)) (good_count ole qs)
          ≡ reply (some (pairs ole qs)) (good_count ole qs)
      answered = rw some_good refl
