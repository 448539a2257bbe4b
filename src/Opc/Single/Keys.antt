-- ===== src/Opc/Single/Keys.antt =====
-- The handles and the names of the items of a group, when they are registered.
use edps_plc_data_acquisitio.Base.{
  ℕ, zero, suc, ◌+◌, ◌==◌, ◌≡◌, refl, ap, ◌∙◌, inl, inr, Bool, Bool-cases, true, false, Option,
  none, some, List, [], ◌∷◌, ◌++◌, Bytes, bytes_eq, map, if◌then◌else◌, arith, get_elem?, length,
}
use mathlib.Core.Path.{subst}
use edps_plc_data_acquisitio.Opc.Items.{OpcItem, failed, at_item}
use edps_plc_data_acquisitio.Opc.Register.{
  Result, register, set_code, set_new_items_res, get_new_items, add_items,
}
use edps_plc_data_acquisitio.Opc.Join.{moved}
use edps_plc_data_acquisitio.Opc.Single.{position_named}

abbrev pub key : OpcItem → ℕ × Bytes
key it = (it.h_client, it.item_id)

abbrev pub keys : List OpcItem → List (ℕ × Bytes)
keys its = map key its

register-key : (r : Result) (it : OpcItem) → key (register r it) ≡ key it
unfolding register
register-key r it = elim (Bool-cases (failed r.code)) [ inl e ↦ rw e refl | inr e ↦ rw e refl ]

keys-set_code : (n code : ℕ) (its : List OpcItem) → keys (set_code n code its) ≡ keys its
unfolding set_code
keys-set_code n code [] = refl
keys-set_code zero code (it ∷ its) = refl
keys-set_code (suc n) code (it ∷ its) = ap (◌∷◌ (key it)) (keys-set_code n code its)

keys-at_item :
    (h : ℕ) (r : Result) (its : List OpcItem) → keys (at_item h (register r) its).0 ≡ keys its
unfolding at_item
keys-at_item h r [] = refl
keys-at_item h r (it ∷ its) = elim (Bool-cases (it.h_client == h)) [
  | inl e ↦ rw e (ap (λ k. k ∷ keys its) (register-key r it))
  | inr e ↦ rw e (ap (◌∷◌ (key it)) (keys-at_item h r its))
]

keys-set_new_items_res :
    (n : ℕ) (rs : List (ℕ × Result)) (its : List OpcItem)
    → keys (set_new_items_res n rs its) ≡ keys its
unfolding set_new_items_res
keys-set_new_items_res n [] its = refl
keys-set_new_items_res n ((h, r) ∷ rs) its =
    keys-set_new_items_res (suc n) rs _ ∙ kept (at_item h (register r) (set_code n r.code its)).1
  where
    kept :
        (b : Bool)
        → keys (if b then (at_item h (register r) (set_code n r.code its)).0 else its) ≡ keys its
    kept true = keys-at_item h r (set_code n r.code its) ∙ keys-set_code n r.code its
    kept false = refl

module _ {W : Type 0} (add : List (ℕ × Bytes) → W → (ℕ × List (ℕ × Result)) × W)
    (its : List OpcItem) (w : W) where
  keys_answered :
      (b : Bool) (rs : List (ℕ × Result))
      → keys (if b then its else set_new_items_res 0 rs its) ≡ keys its
  keys_answered true rs = refl
  keys_answered false rs = keys-set_new_items_res 0 rs its

  keys_of_definitions :
      (ds : List (ℕ × Bytes)) → get_new_items its ≡ ds → keys (add_items add its w).0.1 ≡ keys its
  unfolding add_items
  keys_of_definitions [] e = rw (e, add_items) refl
  keys_of_definitions (d ∷ ds) e =
      rw (e, add_items) (keys_answered (failed (add (d ∷ ds) w).0.0) (add (d ∷ ds) w).0.1)

  pub keys-add_items : keys (add_items add its w).0.1 ≡ keys its
  keys-add_items = keys_of_definitions (get_new_items its) refl

-- The handles count up from `n`.
abbrev pub Counts : ℕ → List (ℕ × Bytes) → Type 0
Counts n [] = Unit {0}
Counts n (k ∷ ks) = (k.0 ≡ n) × Counts (n + 1) ks

-- The item at the place has the name.
abbrev pub NamedIn : Bytes → ℕ → List (ℕ × Bytes) → Type 0
NamedIn name i [] = ⊥
NamedIn name zero (k ∷ ks) = bytes_eq k.1 name ≡ true
NamedIn name (suc i) (k ∷ ks) = NamedIn name i ks

abbrev pub NamedAt : Bytes → List OpcItem → Option ℕ → Type 0
NamedAt name its none = Unit {0}
NamedAt name its (some i) = NamedIn name i (keys its)

pub Counts-snoc :
    (n : ℕ) (its : List OpcItem) (it : OpcItem)
    → Counts n (keys its)
    → it.h_client ≡ n + length its
    → Counts n (keys (its ++ it ∷ []))
Counts-snoc n [] it c e = (omega (arith, e), tt)
Counts-snoc n (x ∷ its) it (cx, c) e = (cx, Counts-snoc (n + 1) its it c (omega (arith, e)))

pub NamedIn-last :
    (name : Bytes) (its : List OpcItem) (it : OpcItem)
    → bytes_eq it.item_id name ≡ true
    → NamedIn name (length its) (keys (its ++ it ∷ []))
NamedIn-last name [] it e = e
NamedIn-last name (x ∷ its) it e = NamedIn-last name its it e

pub NamedIn-get :
    (name : Bytes) (i : ℕ) (its : List OpcItem)
    → NamedIn name i (keys its)
    → (it : OpcItem) × (get_elem? its i ≡ some it) × (bytes_eq it.item_id name ≡ true)
NamedIn-get name i [] n = absurd n
NamedIn-get name zero (it ∷ its) n = (it, refl, n)
NamedIn-get name (suc i) (it ∷ its) n = NamedIn-get name i its n

later-NamedAt :
    (name : Bytes) (it : OpcItem) (its : List OpcItem) (p : Option ℕ)
    → NamedAt name its p
    → NamedAt name (it ∷ its) (moved p)
later-NamedAt name it its none n = tt
later-NamedAt name it its (some i) n = subst (λ j. NamedIn name j (keys (it ∷ its))) (suc_of i) n
  where
    suc_of : (i : ℕ) → suc i ≡ i + 1
    suc_of i = omega arith

pub position_named-NamedAt :
    (name : Bytes) (its : List OpcItem) → NamedAt name its (position_named name its)
unfolding position_named
position_named-NamedAt name [] = tt
position_named-NamedAt name (it ∷ its) = elim (Bool-cases (bytes_eq it.item_id name)) [
  | inl here ↦ rw here here
  | inr there ↦
      rw there
        (later-NamedAt name it its (position_named name its) (position_named-NamedAt name its))
]
