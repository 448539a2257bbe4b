-- ===== src/Opc/Join/Distinct.antt =====
-- The clients' handles of a group's items stay distinct.
use mathlib.Core.Path.{subst}
use edps_plc_data_acquisitio.Base.{
  ℕ, Bool, ◌≡◌, refl, sym, ◌∙◌, inl, inr, ◌==◌, true, false, Bool-cases, Option, none, some, List,
  [], ◌∷◌, ◌++◌, Bytes, ℤ, arith, AvoidsIn, DistinctIn,
}
use edps_plc_data_acquisitio.Opc.Items.{OpcItem}
use edps_plc_data_acquisitio.Opc.Items.Chosen.{Avoids, Distinct}
use edps_plc_data_acquisitio.Opc.Params.{Param}
use edps_plc_data_acquisitio.Opc.Register.{Result}
use edps_plc_data_acquisitio.Opc.Join.{
  new_item, moved, position_of, with_item, add_missing, find_or_add_items_to_group,
}
use edps_plc_data_acquisitio.Opc.Join.Handles.{handles}
use edps_plc_data_acquisitio.Opc.Join.Joined.{find_or_add_items_to_group-Found}

abbrev client : OpcItem → ℕ
client it = it.h_client

AvoidsIn-Avoids : (h : ℕ) (its : List OpcItem) → AvoidsIn h (handles its) → Avoids client h its
AvoidsIn-Avoids h [] a = tt
AvoidsIn-Avoids h (it ∷ its) (ne, a) = (ne, AvoidsIn-Avoids h its a)

Avoids-AvoidsIn : (h : ℕ) (its : List OpcItem) → Avoids client h its → AvoidsIn h (handles its)
Avoids-AvoidsIn h [] a = tt
Avoids-AvoidsIn h (it ∷ its) (ne, a) = (ne, Avoids-AvoidsIn h its a)

DistinctIn-Distinct : (its : List OpcItem) → DistinctIn (handles its) → Distinct client its
DistinctIn-Distinct [] d = tt
DistinctIn-Distinct (it ∷ its) (a, d) =
    (AvoidsIn-Avoids it.h_client its a, DistinctIn-Distinct its d)

Distinct-DistinctIn : (its : List OpcItem) → Distinct client its → DistinctIn (handles its)
Distinct-DistinctIn [] d = tt
Distinct-DistinctIn (it ∷ its) (a, d) =
    (Avoids-AvoidsIn it.h_client its a, Distinct-DistinctIn its d)

Distinct-same_handles :
    (its its' : List OpcItem)
    → handles its' ≡ handles its
    → Distinct client its
    → Distinct client its'
Distinct-same_handles its its' e d =
    DistinctIn-Distinct its' (subst (λ hs. DistinctIn hs) (sym e) (Distinct-DistinctIn its d))

-- An item whose handle was not found goes behind the others.
not_found-Avoids : (h : ℕ) (its : List OpcItem) → position_of h its ≡ none → Avoids client h its
unfolding position_of
not_found-Avoids h [] e = tt
not_found-Avoids h (it ∷ its) e = elim (Bool-cases (it.h_client == h)) [
  | inl here ↦ absurd (ground (arith, sym (found here) ∙ e))
  | inr there ↦
      (there, not_found-Avoids h its (not_moved (position_of h its) (sym (passed there) ∙ e)))
]
  where
    found : (it.h_client == h) ≡ true → position_of h (it ∷ its) ≡ some 0
    found here = rw (here, position_of) refl

    passed : (it.h_client == h) ≡ false → position_of h (it ∷ its) ≡ moved (position_of h its)
    passed there = rw (there, position_of) refl

    not_moved : (p : Option ℕ) → moved p ≡ none → p ≡ none
    not_moved none e = refl
    not_moved (some i) e = ground (arith, e)

Avoids-append :
    (k : ℕ) (its : List OpcItem) (it : OpcItem)
    → Avoids client k its
    → (it.h_client == k) ≡ false
    → Avoids client k (its ++ it ∷ [])
Avoids-append k [] it a ne = (ne, tt)
Avoids-append k (x ∷ its) it (a, rest) ne = (a, Avoids-append k its it rest ne)

Distinct-append :
    (its : List OpcItem) (it : OpcItem)
    → Distinct client its
    → Avoids client it.h_client its
    → Distinct client (its ++ it ∷ [])
Distinct-append [] it d a = (tt, tt)
Distinct-append (x ∷ its) it (dx, d) (ne, a) =
    (Avoids-append x.h_client its it dx (ground (arith, ne)), Distinct-append its it d a)

with_item-Distinct :
    (uninit : ℕ) (p : Option ℕ) (q : Param) (its : List OpcItem)
    → position_of q.par_id its ≡ p
    → Distinct client its
    → Distinct client (with_item uninit p q its)
unfolding new_item
with_item-Distinct uninit none q its e d =
    Distinct-append its (new_item uninit q.item_id q.par_id) d (not_found-Avoids q.par_id its e)
with_item-Distinct uninit (some i) q its e d = d

add_missing-Distinct :
    (uninit : ℕ) (qs : List Param) (its : List OpcItem)
    → Distinct client its
    → Distinct client (add_missing uninit qs its).0
unfolding add_missing
add_missing-Distinct uninit [] its d = d
add_missing-Distinct uninit (q ∷ qs) its d =
    add_missing-Distinct uninit qs (with_item uninit (position_of q.par_id its) q its)
      (with_item-Distinct uninit (position_of q.par_id its) q its refl d)

-- FindOrAddItemsToGroup on items whose client handles are distinct returns, whatever the server
-- answers, and leaves items whose client handles are distinct.
pub find_or_add_items_to_group-Distinct :
    {W : Type 0} (add : List (ℕ × Bytes) → W → (ℕ × List (ℕ × Result)) × W) (uninit : ℕ) (b : Bool)
    (qs : List Param) (its : List OpcItem) (w : W)
    → Distinct (λ it. it.h_client) its
    → (code : ℤ) × (qs' : List Param) × (its' : List OpcItem) × (w' : W)
      × (find_or_add_items_to_group add uninit b qs its w ≡ some ((code, qs', its'), w'))
      × Distinct (λ it. it.h_client) its'
find_or_add_items_to_group-Distinct add uninit b qs its w d =
    let f = find_or_add_items_to_group-Found add uninit b qs its w in
    (
      f.code,
      f.params,
      f.items,
      f.world,
      f.returned,
      Distinct-same_handles (add_missing uninit qs its).0 f.items f.same_handles
          (add_missing-Distinct uninit qs its d),
    )
