-- ===== src/Utils/Timer/Laws.antt =====
-- What Windows promises of the timers of its queues.
use edps_plc_data_acquisitio.Base.{
  ℕ, ◌==◌, ◌≡◌, refl, arith, true, false, List, [], ◌∷◌, if◌then◌else◌,
}
use edps_plc_data_acquisitio.Utils.Timer.{Queues}

-- No timer of the list has the handle.
abbrev pub Unused : ℕ → List (ℕ × ℕ) → Type 0
Unused h [] = Unit {0}
Unused h ((h', period) ∷ ts) = (h' == h ≡ false) × Unused h ts

-- The timers without the one of the handle.
abbrev pub without : ℕ → List (ℕ × ℕ) → List (ℕ × ℕ)
without h [] = []
without h ((h', period) ∷ ts) = if h' == h then without h ts else (h', period) ∷ without h ts

-- `live` are the timers that run, with their handles and periods.
pub record TimerLaws {W : Type 0} (os : Queues W) : Type 0 where
  pub live : W → List (ℕ × ℕ)
  pub create_live :
      (q period : ℕ) (w : W)
      → (os.create q period w).0.0 ≡ true
      → live (os.create q period w).1 ≡ ((os.create q period w).0.1, period) ∷ live w
  pub create_fresh :
      (q period : ℕ) (w : W)
      → (os.create q period w).0.0 ≡ true
      → ((os.create q period w).0.1 == 0 ≡ false) × Unused (os.create q period w).0.1 (live w)
  pub create_fails :
      (q period : ℕ) (w : W)
      → (os.create q period w).0.0 ≡ false
      → live (os.create q period w).1 ≡ live w
  pub delete_live : (q h : ℕ) (w : W) → live (os.delete q h w) ≡ without h (live w)
  pub create_queue_live : (w : W) → live (os.create_queue w).1 ≡ live w
  pub raise_live : (w : W) → live (os.raise_on_timer w) ≡ live w

pub without-Unused : (h : ℕ) (ts : List (ℕ × ℕ)) → Unused h ts → without h ts ≡ ts
without-Unused h [] u = refl
without-Unused h ((h', period) ∷ ts) (other, u) = rw (other, without-Unused h ts u) refl

pub without-own :
    (h period : ℕ) (ts : List (ℕ × ℕ)) → Unused h ts → without h ((h, period) ∷ ts) ≡ ts
without-own h period ts u = rw (same h) (without-Unused h ts u)
  where
    same : (n : ℕ) → (n == n) ≡ true
    same n = ground arith
