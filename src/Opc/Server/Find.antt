-- ===== src/Opc/Server/Find.antt =====
-- `GetGroupByName` finds the first group with the name, and takes one reference of it.
use edps_plc_data_acquisitio.Base.{
  ℕ, zero, suc, ◌+◌, ◌%◌, ◌^◌, ◌≤◌, ◌≡◌, refl, sym, ap, ◌∙◌, inl, inr, ◌==◌, false, Bool,
  Bool-cases, Option, none, some, List, [], ◌∷◌, ◌++◌, Bytes, bytes_eq, length, length-append,
  arith, if◌then◌else◌,
}
use mathlib.Core.Path.{subst}
use mathlib.Core.List.{append-nil}
use edps_plc_data_acquisitio.Base.Run.{ok, Returns, returns}
use edps_plc_data_acquisitio.Opc.Objects.{Object, Held, release, referred, first, next}
use edps_plc_data_acquisitio.Opc.Objects.Arrays.{append-snoc}
use edps_plc_data_acquisitio.Opc.Objects.Refines.{Holds, referred_to}
use edps_plc_data_acquisitio.Opc.Objects.Walk.{
  at_ptr, Counted, AllLive, same, release-add_ref, referred_here, referred_end, at_ptr-Holds,
}
use edps_plc_data_acquisitio.Opc.Group.{Group, can_end}
use edps_plc_data_acquisitio.Opc.Server.{find_from, find_group}

abbrev pub Groups : Type 0
Groups = ℕ → Option (Object Group)

abbrev pub is_named : Bytes → Option (Object Group) → Bool
is_named name none = false
is_named name (some o) = bytes_eq o.body.name name

-- The first group of the list with the name and its position, counted from `i`.
abbrev pub first_named : Groups → Bytes → List ℕ → ℕ → Option ℕ × ℕ
first_named objects name [] i = (none, i)
first_named objects name (x ∷ xs) i =
    if is_named name (objects x) then (some x, i) else first_named objects name xs (i + 1)

abbrev pub bump : Option (Object Group) → Option (Object Group)
bump none = none
bump (some o) = some (referred_to o)

-- The objects, with one more reference of the one that is found.
abbrev pub given : Option ℕ → Groups → Groups
given none objects = objects
given (some x) objects = λ q. if q == x then bump (objects x) else objects q

abbrev pub head : List ℕ → Option ℕ
head [] = none
head (x ∷ xs) = some x

abbrev pub at_head : List ℕ → ℕ → Held Group → Held Group
at_head xs n h = at_ptr n (record h { objects = given (head xs) h.objects })

pub given-some :
    (objects : Groups) (x : ℕ) (o : Object Group)
    → objects x ≡ some o
    → (λ q. if q == x then some (referred_to o) else objects q) ≡ given (some x) objects
given-some objects x o e = ap (λ b q. if q == x then b else objects q) (sym (ap bump e))

pub referred-head :
    (h : Held Group) (ys zs : List ℕ)
    → Holds h.list (ys ++ zs)
    → AllLive h.objects zs
    → referred (length ys) (at_ptr (length ys) h) ≡ ok (head zs) (at_head zs (length ys) h)
referred-head h ys [] hs live =
    referred_end (at_ptr (length ys) h) ys
      (at_ptr-Holds (length ys) h ys (subst (λ l. Holds h.list l) (append-nil ys) hs))
referred-head h ys (x ∷ zs) hs ((o, e, c), live) =
    referred_here (at_ptr (length ys) h) ys x zs o (at_ptr-Holds (length ys) h (ys ++ x ∷ zs) hs) e
    ∙ ap (λ f. ok (some x) (at_ptr (length ys) (record h { objects = f })))
        (given-some h.objects x o e)

pub next-head :
    (h : Held Group) (n : ℕ) (ys zs : List ℕ)
    → Holds h.list (ys ++ zs)
    → AllLive h.objects zs
    → (n + 1) % 2 ^ 32 ≡ length ys
    → next (at_ptr n h) ≡ ok (head zs) (at_head zs (length ys) h)
unfolding next
next-head h n ys zs hs live e = rw (e) (referred-head h ys zs hs live)

pub release_head :
    (h : Held Group) (n x : ℕ) (zs : List ℕ) (o : Object Group)
    → h.objects x ≡ some o
    → Counted o
    → release can_end x (at_head (x ∷ zs) n h) ≡ ok tt (at_ptr n h)
release_head h n x zs o e c =
    ap (λ f. release can_end x (at_ptr n (record h { objects = f })))
      (sym (given-some h.objects x o e))
    ∙ release-add_ref can_end (at_ptr n h) x o e c

find_from-Found :
    (h : Held Group) (name : Bytes) (fuel pos : ℕ) (ys zs : List ℕ)
    → Holds h.list (ys ++ zs)
    → AllLive h.objects zs
    → length zs ≤ fuel
    → pos ≡ length ys
    → Returns
        (λ r h'.
          (r ≡ first_named h.objects name zs pos)
          × (h'.objects ≡ given (first_named h.objects name zs pos).0 h.objects)
          × Holds h'.list (ys ++ zs)
          × (h'.list.max_count ≡ h.list.max_count)
          × (h'.list.add_size ≡ h.list.add_size))
        (find_from fuel pos name (head zs) (at_head zs (length ys) h))
unfolding find_from
find_from-Found h name fuel pos ys [] hs live le p =
    returns (refl, refl, at_ptr-Holds (length ys) h (ys ++ []) hs, refl, refl)
find_from-Found h name zero pos ys (x ∷ zs) hs live le p = absurd (omega arith)
find_from-Found h name (suc fuel) pos ys (x ∷ zs) hs ((o, e, c), live) le p =
    rw (same x, e)
      (elim (Bool-cases (bytes_eq o.body.name name)) [
        | inl here ↦
            rw here (returns (refl, refl, at_ptr-Holds (length ys) h (ys ++ x ∷ zs) hs, refl, refl))
        | inr there ↦
            let step = next-head h (length ys) (ys ++ x ∷ []) zs (on hs) live (moved hs) in
            rw (there, release_head h (length ys) x zs o e c, step, sym (append-snoc ys x zs))
              (find_from-Found h name fuel (pos + 1) (ys ++ x ∷ []) zs (on hs) live (omega arith)
                (p_next p))
      ])
  where
    p_next : pos ≡ length ys → pos + 1 ≡ length (ys ++ x ∷ [])
    p_next p = omega (arith, length-append ys (x ∷ []))

    on : Holds h.list (ys ++ x ∷ zs) → Holds h.list ((ys ++ x ∷ []) ++ zs)
    on hs = subst (λ l. Holds h.list l) (sym (append-snoc ys x zs)) hs

    moved : Holds h.list (ys ++ x ∷ zs) → (length ys + 1) % 2 ^ 32 ≡ length (ys ++ x ∷ [])
    moved hs =
        omega (arith, hs.small, hs.sized, length-append ys (x ∷ zs), length-append ys (x ∷ []))

-- Where the objects of the list live, `GetGroupByName` gives the first of them with the name and its
-- position, with one more reference, or NULL and the length of the list; nothing else changes.
pub find_group-first_named :
    (h : Held Group) (name : Bytes) (xs : List ℕ)
    → Holds h.list xs
    → AllLive h.objects xs
    → Returns
        (λ r h'.
          (r ≡ first_named h.objects name xs 0)
          × (h'.objects ≡ given (first_named h.objects name xs 0).0 h.objects)
          × Holds h'.list xs
          × (h'.list.max_count ≡ h.list.max_count)
          × (h'.list.add_size ≡ h.list.add_size))
        (find_group name h)
unfolding find_group first
find_group-first_named h name xs hs live =
    rw (referred-head h [] xs hs live)
      (find_from-Found h name (h.list.count + 1) 0 [] xs hs live (omega (arith, hs.counted)) refl)
