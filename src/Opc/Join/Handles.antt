-- ===== src/Opc/Join/Handles.antt =====
-- What keeps the clients' handles of the items, in their places.
use edps_plc_data_acquisitio.Base.{
  ℕ, zero, suc, ◌+◌, ◌==◌, ◌≡◌, refl, ap, sym, ◌∙◌, inl, inr, Bool, Bool-cases, true, false, Option,
  none, some, List, [], ◌∷◌, ◌++◌, Bytes, map, if◌then◌else◌, arith, ◌⊎◌, get_elem?, ==→eq,
}
use edps_plc_data_acquisitio.Opc.Items.{OpcItem, failed, at_item}
use edps_plc_data_acquisitio.Opc.Register.{
  Result, register, set_code, set_new_items_res, get_new_items, add_items,
}
use edps_plc_data_acquisitio.Opc.Register.Uncoded.{register-h_client}
use edps_plc_data_acquisitio.Opc.Join.{change_at, position_of, moved}

abbrev pub handles : List OpcItem → List ℕ
handles its = map (λ it. it.h_client) its

handles-set_code : (n code : ℕ) (its : List OpcItem) → handles (set_code n code its) ≡ handles its
unfolding set_code
handles-set_code n code [] = refl
handles-set_code zero code (it ∷ its) = refl
handles-set_code (suc n) code (it ∷ its) = ap (◌∷◌ it.h_client) (handles-set_code n code its)

handles-at_item :
    (h : ℕ) (r : Result) (its : List OpcItem) → handles (at_item h (register r) its).0 ≡ handles its
unfolding at_item
handles-at_item h r [] = refl
handles-at_item h r (it ∷ its) = elim (Bool-cases (it.h_client == h)) [
  | inl e ↦ rw e (ap (λ k. k ∷ handles its) (register-h_client r it))
  | inr e ↦ rw e (ap (◌∷◌ it.h_client) (handles-at_item h r its))
]

handles-set_new_items_res :
    (n : ℕ) (rs : List (ℕ × Result)) (its : List OpcItem)
    → handles (set_new_items_res n rs its) ≡ handles its
unfolding set_new_items_res
handles-set_new_items_res n [] its = refl
handles-set_new_items_res n ((h, r) ∷ rs) its =
    handles-set_new_items_res (suc n) rs _ ∙ kept (at_item h (register r) (set_code n r.code its)).1
  where
    changed : List OpcItem
    changed = (at_item h (register r) (set_code n r.code its)).0

    kept : (b : Bool) → handles (if b then changed else its) ≡ handles its
    kept true = handles-at_item h r (set_code n r.code its) ∙ handles-set_code n r.code its
    kept false = refl

module _ {W : Type 0} (add : List (ℕ × Bytes) → W → (ℕ × List (ℕ × Result)) × W)
    (its : List OpcItem) (w : W) where
  handles_answered :
      (b : Bool) (rs : List (ℕ × Result))
      → handles (if b then its else set_new_items_res 0 rs its) ≡ handles its
  handles_answered true rs = refl
  handles_answered false rs = handles-set_new_items_res 0 rs its

  handles_of_definitions :
      (ds : List (ℕ × Bytes))
      → get_new_items its ≡ ds
      → handles (add_items add its w).0.1 ≡ handles its
  unfolding add_items
  handles_of_definitions [] e = rw (e, add_items) refl
  handles_of_definitions (d ∷ ds) e =
      rw (e, add_items) (handles_answered (failed (add (d ∷ ds) w).0.0) (add (d ∷ ds) w).0.1)

  pub handles-add_items : handles (add_items add its w).0.1 ≡ handles its
  handles-add_items = handles_of_definitions (get_new_items its) refl

pub handles-change_at :
    (i : ℕ) (f : OpcItem → OpcItem) (its : List OpcItem)
    → ((it : OpcItem) → (f it).h_client ≡ it.h_client)
    → handles (change_at i f its) ≡ handles its
unfolding change_at
handles-change_at i f [] e = refl
handles-change_at zero f (it ∷ its) e = ap (λ k. k ∷ handles its) (e it)
handles-change_at (suc i) f (it ∷ its) e = ap (◌∷◌ it.h_client) (handles-change_at i f its e)

suc_of : (i : ℕ) → i + 1 ≡ suc i
suc_of i = omega arith

-- One of the handles is `h`.
abbrev pub Has : ℕ → List ℕ → Type 0
Has h [] = ⊥
Has h (k ∷ ks) = ((k == h) ≡ true) ⊎ Has h ks

pub Has-append : (h : ℕ) (ks ls : List ℕ) → Has h ks → Has h (ks ++ ls)
Has-append h [] ls m = absurd m
Has-append h (k ∷ ks) ls (inl e) = inl e
Has-append h (k ∷ ks) ls (inr m) = inr (Has-append h ks ls m)

pub Has-last : (h : ℕ) (ks : List ℕ) → Has h (ks ++ h ∷ [])
Has-last h [] = inl (ground arith)
Has-last h (k ∷ ks) = inr (Has-last h ks)

-- The item at the place has the handle.
abbrev pub At : List OpcItem → ℕ → Option ℕ → Type 0
At its h p =
    (i : ℕ) × (it : OpcItem) × (p ≡ some i) × (get_elem? its i ≡ some it) × (it.h_client ≡ h)

pub position_of-At :
    (h : ℕ) (its : List OpcItem) → Has h (handles its) → At its h (position_of h its)
unfolding position_of
position_of-At h [] m = absurd m
position_of-At h (it ∷ its) m = elim (Bool-cases (it.h_client == h)) [
  | inl e ↦ rw e (0, it, refl, refl, ==→eq it.h_client h e)
  | inr e ↦ rw e (later e m (position_of-At h its))
]
  where
    later :
        (it.h_client == h) ≡ false
        → Has h (it.h_client ∷ handles its)
        → (Has h (handles its) → At its h (position_of h its))
        → At (it ∷ its) h (moved (position_of h its))
    later e (inl here) next = absurd (ground (arith, e, here))
    later e (inr there) next =
        let (i, it', p, g, c) = next there in (i + 1, it', ap moved p, rw (suc_of i) g, c)

pub position_of-Has :
    (h i : ℕ) (its : List OpcItem) → position_of h its ≡ some i → Has h (handles its)
unfolding position_of
position_of-Has h i [] e = ground (arith, e)
position_of-Has h i (it ∷ its) e = elim (Bool-cases (it.h_client == h)) [
  | inl here ↦ inl here
  | inr there ↦
      inr (before (position_of h its) refl (sym (passed there) ∙ e) (λ j. position_of-Has h j its))
]
  where
    passed : (it.h_client == h) ≡ false → position_of h (it ∷ its) ≡ moved (position_of h its)
    passed there = rw there refl

    before :
        (p : Option ℕ)
        → position_of h its ≡ p
        → moved p ≡ some i
        → ((j : ℕ) → position_of h its ≡ some j → Has h (handles its))
        → Has h (handles its)
    before none r e next = ground (arith, e)
    before (some j) r e next = next j r
