-- ===== src/Utils/Timer.antt =====
-- edpsrun/EdpsUtils/EdpsTimer.cpp: a timer object over the timer queues of Windows.
use edps_plc_data_acquisitio.Base.{
  ℕ, ◌+◌, ◌%◌, ◌^◌, ◌==◌, ◌&&◌, ◌||◌, not, true, false, Bool, ℤ, pos, negsuc, pos_part, minus,
  is_zero, is_neg, ltb, if◌then◌else◌,
}
pub mod Laws
pub mod Enable
pub mod Reach
pub mod Served

-- The timer queues: `CreateTimerQueue()`, `CreateTimerQueueTimer` with the period (result and the
-- handle that it stores), `DeleteTimerQueueTimer`; and what the receivers of `OnTimer` do.
pub record Queues (W : Type 0) : Type 0 where
  pub create_queue : W → ℕ × W
  pub create : ℕ → ℕ → W → (Bool × ℕ) × W
  pub delete : ℕ → ℕ → W → W
  pub raise_on_timer : W → W

-- `CEdpsTimer`, the static handle of the queue, and the world. A handle of 0 is NULL, and the count
-- is its 32-bit pattern.
pub record Timer (W : Type 0) : Type 0 where
  pub enabled : Bool
  pub interval : ℤ
  pub heat_count : ℕ
  pub timer : ℕ
  pub queue : ℕ
  pub world : W

-- `HRESULT`
pub data Result : Type 0 where
  s_ok : Result
  e_fail : Result

abbrev pub same_int : ℤ → ℤ → Bool
same_int (pos a) (pos b) = a == b
same_int (negsuc a) (negsuc b) = a == b
same_int (pos a) (negsuc b) = false
same_int (negsuc a) (pos b) = false

abbrev pub is_positive : ℤ → Bool
is_positive a = not (is_neg a) && not (is_zero a)

abbrev pub result_of : Bool → Result
result_of b = if b then s_ok else e_fail

abbrev pub at_least_10 : ℤ → ℤ
at_least_10 (pos n) = if ltb n 10 then pos 10 else pos n
at_least_10 (negsuc n) = pos 10

module _ {W : Type 0} where
  abbrev pub is_enabled : Timer W → Bool
  is_enabled t = t.enabled && is_positive t.interval

  unfoldable pub new_timer : ℕ → W → Timer W
  new_timer queue w = record {
    enabled = false;
    interval = minus 1;
    heat_count = 0;
    timer = 0;
    queue = queue;
    world = w;
  }

  unfoldable pub get_enabled : Timer W → ℤ
  get_enabled t = if t.enabled && is_positive t.interval then minus 1 else pos 0

  unfoldable pub get_interval : Timer W → ℤ
  get_interval t = t.interval

  unfoldable pub get_hits_count : Timer W → ℕ
  get_hits_count t = t.heat_count

  module _ (os : Queues W) where
    unfoldable pub final_construct : Timer W → Result × Timer W
    final_construct t =
        if t.queue == 0
        then (let (q, w) = os.create_queue t.world in (s_ok, record t { queue = q; world = w }))
        else (s_ok, t)

    unfoldable pub final_release : Timer W → Timer W
    final_release t =
        if t.timer == 0
        then t
        else record t { timer = 0; world = os.delete t.queue t.timer t.world }

    unfoldable pub delete_timer : Timer W → Timer W
    delete_timer t = record t { timer = 0; world = os.delete t.queue t.timer t.world }

    unfoldable pub create_timer : Timer W → Bool × Timer W
    create_timer t =
        let ((done, handle), w) = os.create t.queue (pos_part t.interval) t.world in
        (done, record t { heat_count = 0; timer = handle; world = w })

    unfoldable pub restart_timer : Bool → ℤ → Timer W → Bool × Timer W
    restart_timer before_enabled before_int t =
        let stopped =
          if before_enabled && (not (is_enabled t) || not (same_int before_int t.interval))
          then delete_timer t
          else t in
        if (not before_enabled && is_enabled stopped)
          || (is_enabled stopped && not (same_int before_int stopped.interval))
        then create_timer stopped
        else (true, stopped)

    unfoldable pub wait_or_timer_callback : Timer W → Timer W
    wait_or_timer_callback t = record t {
      heat_count = (t.heat_count + 1) % 2 ^ 32;
      world = os.raise_on_timer t.world;
    }

    unfoldable pub put_enabled : ℤ → Timer W → Result × Timer W
    put_enabled val t =
        let (done, t') =
          restart_timer (is_enabled t) t.interval (record t { enabled = not (is_zero val) }) in
        (result_of done, t')

    unfoldable pub put_interval : ℤ → Timer W → Result × Timer W
    put_interval val t =
        let (done, t') =
          restart_timer (is_enabled t) t.interval (record t { interval = at_least_10 val }) in
        (result_of done, t')
