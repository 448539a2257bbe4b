-- ===== src/Opc/Join/Choice.antt =====
-- The last loop of `FindOrAddItemsToGroup`: the items of the parameters are chosen.
use edps_plc_data_acquisitio.Base.{
  ℕ, zero, suc, ◌≡◌, refl, ap, ◌∙◌, Bool, true, false, none, some, List, [], ◌∷◌, get_elem?, arith,
}
use edps_plc_data_acquisitio.Opc.Items.{OpcItem}
use edps_plc_data_acquisitio.Opc.Params.{Param}
use edps_plc_data_acquisitio.Opc.Join.{
  point_to, change_at, choice, choose_at, option_then, choose_all,
}
use edps_plc_data_acquisitio.Opc.Join.Handles.{handles, handles-change_at, At, position_of-At}
use edps_plc_data_acquisitio.Opc.Join.Missing.{AllHave}

-- The parameter points to the item with its number, which is chosen.
abbrev pub is_chosen : Bool → OpcItem → Bool
is_chosen true it = it.for_read
is_chosen false it = it.for_write

abbrev pub Joined : Bool → List OpcItem → Param → Type 0
Joined set2read its q =
    (i : ℕ) × (it : OpcItem) × (q.item ≡ some i)
    × (get_elem? its i ≡ some it)
    × (it.h_client ≡ q.par_id)
    × (is_chosen set2read it ≡ true)

abbrev pub AllJoined : Bool → List OpcItem → List Param → Type 0
AllJoined set2read its [] = Unit {0}
AllJoined set2read its (q ∷ qs) = Joined set2read its q × AllJoined set2read its qs

abbrev Pointing : List OpcItem → List Param → Type 0
Pointing its [] = Unit {0}
Pointing its (q ∷ qs) = At its q.par_id q.item × Pointing its qs

pub point_to-Pointing :
    (qs : List Param) (its : List OpcItem)
    → AllHave qs (handles its)
    → Pointing its (point_to its qs)
unfolding point_to
point_to-Pointing [] its h = tt
point_to-Pointing (q ∷ qs) its (h, hs) =
    (position_of-At q.par_id its h, point_to-Pointing qs its hs)

choice-h_client : (b : Bool) (q : Param) (it : OpcItem) → (choice b q it).h_client ≡ it.h_client
choice-h_client true q it = refl
choice-h_client false q it = refl

choice-is_chosen : (b : Bool) (q : Param) (it : OpcItem) → is_chosen b (choice b q it) ≡ true
choice-is_chosen true q it = refl
choice-is_chosen false q it = refl

-- The item that was at a place, after a choice.
abbrev After : Bool → List OpcItem → ℕ → OpcItem → Type 0
After b its j it =
    (it' : OpcItem) × (get_elem? its j ≡ some it')
    × (it'.h_client ≡ it.h_client)
    × (is_chosen b it ≡ true → is_chosen b it' ≡ true)

module _ (b : Bool) (q : Param) where
  change_at-After :
      (i j : ℕ) (its : List OpcItem) (it : OpcItem)
      → get_elem? its j ≡ some it
      → After b (change_at i (choice b q) its) j it
  unfolding change_at
  change_at-After i j [] it e = ground (arith, e)
  change_at-After zero zero (x ∷ its) it e = (
    choice b q x,
    refl,
    choice-h_client b q x ∙ ap (λ o. elim o [ none ↦ 0 | some y ↦ y.h_client ]) e,
    λ _. choice-is_chosen b q x,
  )
  change_at-After zero (suc j) (x ∷ its) it e = (it, e, refl, λ c. c)
  change_at-After (suc i) zero (x ∷ its) it e = (it, e, refl, λ c. c)
  change_at-After (suc i) (suc j) (x ∷ its) it e = change_at-After i j its it e

  change_at_own :
      (i : ℕ) (its : List OpcItem) (it : OpcItem)
      → get_elem? its i ≡ some it
      → get_elem? (change_at i (choice b q) its) i ≡ some (choice b q it)
  unfolding change_at
  change_at_own i [] it e = ground (arith, e)
  change_at_own zero (x ∷ its) it e =
      ap (λ o. elim o [ none ↦ none | some y ↦ some (choice b q y) ]) e
  change_at_own (suc i) (x ∷ its) it e = change_at_own i its it e

  change_at-Pointing :
      (i : ℕ) (its : List OpcItem) (qs : List Param)
      → Pointing its qs
      → Pointing (change_at i (choice b q) its) qs
  change_at-Pointing i its [] p = tt
  change_at-Pointing i its (r ∷ qs) ((j, it, p, e, c), ps) =
      let (it', e', c', k) = change_at-After i j its it e in
      ((j, it', p, e', c' ∙ c), change_at-Pointing i its qs ps)

  change_at-Joined :
      (i : ℕ) (its : List OpcItem) (r : Param)
      → Joined b its r
      → Joined b (change_at i (choice b q) its) r
  change_at-Joined i its r (j, it, p, e, c, d) =
      let (it', e', c', k) = change_at-After i j its it e in (j, it', p, e', c' ∙ c, k d)

-- The last loop ends; it chooses the item of every parameter, and no item is chosen no more.
pub choose_all-AllJoined :
    (b : Bool) (qs : List Param) (its : List OpcItem)
    → Pointing its qs
    → (its' : List OpcItem) × (choose_all b qs its ≡ some its')
      × (handles its' ≡ handles its)
      × AllJoined b its' qs
      × ((r : Param) → Joined b its r → Joined b its' r)
unfolding choose_all
choose_all-AllJoined b [] its p = (its, refl, refl, tt, λ r j. j)
choose_all-AllJoined b (q ∷ qs) its ((i, it, p, e, c), ps) =
    let its1 = change_at i (choice b q) its in
    let (its', done, same, joined, still) =
      choose_all-AllJoined b qs its1 (change_at-Pointing b q i its qs ps) in
    let own : Joined b its1 q = (
      i,
      choice b q it,
      p,
      change_at_own b q i its it e,
      choice-h_client b q it ∙ c,
      choice-is_chosen b q it,
    ) in
    (
      its',
      ap (λ o. option_then (choose_at o b q its) (choose_all b qs)) p ∙ done,
      same ∙ handles-change_at i (choice b q) its (choice-h_client b q),
      (still q own, joined),
      λ r j. still r (change_at-Joined b q i its r j),
    )
