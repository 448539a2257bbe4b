-- ===== src/Opc/Objects/Arrays.antt =====
-- Entries of an array that is put together from lists.
use mathlib.Core.List.{append_assoc}
use edps_plc_data_acquisitio.Base.{
  ℕ, suc, ◌+◌, ◌≡◌, refl, ap, ◌∙◌, List, [], ◌∷◌, ◌++◌, Option, none, some, get_elem?, set, length,
  map, arith,
}

suc_next : (n : ℕ) → suc n + 1 ≡ suc (n + 1)
suc_next n = omega arith

module _ {A : Type 0} where
  pub get-append :
      (xs : List A) (y : A) (ys : List A) → get_elem? (xs ++ y ∷ ys) (length xs) ≡ some y
  get-append [] y ys = refl
  get-append (x ∷ xs) y ys = get-append xs y ys

  pub get-append_next :
      (xs : List A) (y z : A) (ys : List A) → get_elem? (xs ++ y ∷ z ∷ ys) (length xs + 1) ≡ some z
  get-append_next [] y z ys = refl
  get-append_next (x ∷ xs) y z ys =
      ap (λ i. get_elem? (x ∷ (xs ++ y ∷ z ∷ ys)) i) (suc_next (length xs))
      ∙ get-append_next xs y z ys

  pub get-append_end : (xs : List A) (y : A) → get_elem? (xs ++ y ∷ []) (length xs + 1) ≡ none
  get-append_end [] y = refl
  get-append_end (x ∷ xs) y =
      ap (λ i. get_elem? (x ∷ (xs ++ y ∷ [])) i) (suc_next (length xs)) ∙ get-append_end xs y

  pub set-append :
      (xs : List A) (y z : A) (ys : List A) → set (xs ++ y ∷ ys) (length xs) z ≡ xs ++ z ∷ ys
  set-append [] y z ys = refl
  set-append (x ∷ xs) y z ys = ap (◌∷◌ x) (set-append xs y z ys)

  pub append-snoc : (xs : List A) (y : A) (ys : List A) → (xs ++ y ∷ []) ++ ys ≡ xs ++ y ∷ ys
  append-snoc xs y ys = append_assoc xs (y ∷ []) ys

pub length-slots : (xs : List ℕ) → length (map some xs) ≡ length xs
length-slots [] = refl
length-slots (x ∷ xs) = ap suc (length-slots xs)

pub slots-snoc : (xs : List ℕ) (p : ℕ) → map some (xs ++ p ∷ []) ≡ map some xs ++ some p ∷ []
slots-snoc [] p = refl
slots-snoc (x ∷ xs) p = ap (◌∷◌ (some x)) (slots-snoc xs p)

pub slots-append : (xs ys : List ℕ) → map some (xs ++ ys) ≡ map some xs ++ map some ys
slots-append [] ys = refl
slots-append (x ∷ xs) ys = ap (◌∷◌ (some x)) (slots-append xs ys)

pub slots-split :
    (ys : List ℕ) (x : ℕ) (zs : List ℕ) (rest : List (Option ℕ))
    → map some (ys ++ x ∷ zs) ++ rest ≡ map some ys ++ some x ∷ (map some zs ++ rest)
slots-split [] x zs rest = refl
slots-split (y ∷ ys) x zs rest = ap (◌∷◌ (some y)) (slots-split ys x zs rest)
