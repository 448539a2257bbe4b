-- ===== src/Examples/Timer.antt =====
-- Timers of edpsrun/EdpsUtils/ on a small system that runs at most two of them.
use edps_plc_data_acquisitio.Base.{
  ℕ, ◌+◌, ◌≤◌, ◌<◌, ◌≡◌, ◌⊎◌, ◌==◌, refl, true, false, Bool, List, [], ◌∷◌, pos, minus, is_zero,
  pos_part, ltb, length, if◌then◌else◌, arith,
}
use edps_plc_data_acquisitio.Utils.Timer.{
  Queues, Timer, s_ok, e_fail, new_timer, create_timer, delete_timer, restart_timer,
  final_construct, final_release, wait_or_timer_callback, put_enabled, put_interval, get_enabled,
  get_interval, get_hits_count,
}
use edps_plc_data_acquisitio.Utils.Timer.Laws.{Unused, without, TimerLaws}
use edps_plc_data_acquisitio.Utils.Timer.Reach.{
  constructing, enabling, setting, expiring, Reach, made, called, Reach-live, final_release-live,
}
use edps_plc_data_acquisitio.Utils.Timer.Enable.{expired, put_enabled_refused, put_enabled-hits}

abbrev Live : Type 0
Live = List (ℕ × ℕ)

-- A handle above all that are in use.
abbrev total : Live → ℕ
total [] = 0
total ((h, period) ∷ ts) = h + total ts

abbrev granted : Bool → ℕ → Live → (Bool × ℕ) × Live
granted true period ts = ((true, total ts + 1), (total ts + 1, period) ∷ ts)
granted false period ts = ((false, 0), ts)

abbrev create : ℕ → ℕ → Live → (Bool × ℕ) × Live
create q period ts = granted (ltb (length ts) 2) period ts

abbrev windows : Queues Live
windows = record {
  create_queue = λ ts. (1, ts);
  create = create;
  delete = λ q h ts. without h ts;
  raise_on_timer = λ ts. ts;
}

above-Unused : (h : ℕ) (ts : Live) → total ts < h → Unused h ts
above-Unused h [] l = tt
above-Unused h ((h', period) ∷ ts) l = (ground arith, above-Unused h ts (omega arith))

fresh : (ts : Live) → ((total ts + 1 == 0) ≡ false) × Unused (total ts + 1) ts
fresh ts = (ground arith, above-Unused (total ts + 1) ts (omega arith))

granted_live :
    (b : Bool) (period : ℕ) (ts : Live)
    → (granted b period ts).0.0 ≡ true
    → ((granted b period ts).1 ≡ ((granted b period ts).0.1, period) ∷ ts)
      × ((granted b period ts).0.1 == 0 ≡ false)
      × Unused (granted b period ts).0.1 ts
granted_live true period ts e = let (h, u) = fresh ts in (refl, h, u)
granted_live false period ts e = ground (arith, e)

refused_live :
    (b : Bool) (period : ℕ) (ts : Live)
    → (granted b period ts).0.0 ≡ false
    → (granted b period ts).1 ≡ ts
refused_live true period ts e = ground (arith, e)
refused_live false period ts e = refl

abbrev windows-TimerLaws : TimerLaws windows
windows-TimerLaws = record {
  live = λ ts. ts;
  create_live = λ q period ts e. (granted_live (ltb (length ts) 2) period ts e).0;
  create_fresh =
      λ q period ts e. let (l, h, u) = granted_live (ltb (length ts) 2) period ts e in (h, u);
  create_fails = λ q period ts e. refused_live (ltb (length ts) 2) period ts e;
  delete_live = λ q h ts. refl;
  create_queue_live = λ ts. refl;
  raise_live = λ ts. refl;
}

-- Another object's timer runs.
abbrev others : Live
others = (7, 1_000) ∷ []

abbrev idle : Timer Live
idle = new_timer 0 others

-- The interval is set, the object is enabled, its timer expires, and the interval is set anew.
abbrev at_50 : Timer Live
at_50 = (put_interval windows (pos 50) (final_construct windows idle).1).1

abbrev at_20 : Timer Live
at_20 =
    (put_interval windows (pos 20)
      (wait_or_timer_callback windows (put_enabled windows (minus 1) at_50).1)).1

running : Reach windows others at_20
unfolding new_timer final_construct put_interval put_enabled wait_or_timer_callback restart_timer
    create_timer delete_timer
running =
    called
      (called
        (called (called (called (made 0) constructing) (setting (pos 50) refl))
          (enabling (minus 1) refl))
        expiring)
      (setting (pos 20) refl)

Reach-live_example :
    (at_20.world ≡ (
      if is_zero (get_enabled at_20)
      then others
      else (at_20.timer, pos_part (get_interval at_20)) ∷ others))
    × ((get_interval at_20 ≡ minus 1) ⊎ (10 ≤ pos_part (get_interval at_20)))
Reach-live_example = Reach-live windows-TimerLaws running

final_release-live_example : (final_release windows at_20).world ≡ others
final_release-live_example = final_release-live windows-TimerLaws running

-- The system runs two timers already.
abbrev stopped : Timer Live
stopped = record {
  enabled = false;
  interval = pos 50;
  heat_count = 3;
  timer = 0;
  queue = 1;
  world = (8, 1_000) ∷ others;
}

put_enabled_refused_example :
    ((put_enabled windows (minus 1) stopped).0 ≡ e_fail)
    × (get_enabled (put_enabled windows (minus 1) stopped).1 ≡ minus 1)
    × ((put_enabled windows (minus 1) stopped).1.world ≡ stopped.world)
    × (put_enabled windows (minus 1) (put_enabled windows (minus 1) stopped).1
        ≡ (s_ok, (put_enabled windows (minus 1) stopped).1))
put_enabled_refused_example =
    put_enabled_refused windows-TimerLaws (minus 1) stopped refl refl (omega arith) refl

put_enabled-hits_example :
    get_hits_count (
      expired windows-TimerLaws 5 (put_enabled windows (minus 1) (record stopped { world = [] })).1)
    ≡ 5
put_enabled-hits_example =
    put_enabled-hits windows-TimerLaws (minus 1) (record stopped { world = [] }) 5 refl refl
      (omega arith)
