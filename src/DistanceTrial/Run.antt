-- ===== src/DistanceTrial/Run.antt =====
-- `stationary`.
use lekiwi.Prelude.{
  ℕ, zero, suc, Bool, true, false, not, ◌&&◌, List, [], ◌∷◌, ◌++◌, ◌==◌, ltb, length, if◌then◌else◌,
}
use lekiwi.Float.{Num, nought, le, lt, fabs, fmax}
use lekiwi.Float.Fpu.{Fpu}
use lekiwi.Effect.{M, pure, raise, ◌>>=◌, ◌>>◌, out_of_fuel, runtime_error}
use lekiwi.DistanceTrial.{Sample, Displacement, Trig, forward, displacement, period}
use lekiwi.DistanceTrial.Endpoint.{spin, publish, World, State, call, read_clock, check_sample}

-- 5.0, 2.0, 0.0005, 0.003 and 0.02
abbrev pub stop_timeout : Num
stop_timeout = 0x4014000000000000

abbrev pub two : Num
two = 0x4000000000000000

abbrev still_distance : Num
still_distance = 0x3f40624dd2f1a9fc

abbrev still_angle : Num
still_angle = 0x3f689374bc6a7efa

abbrev still_turn : Num
still_turn = 0x3f947ae147ae147b

-- The window's last sample, of a window that begins with `a`
abbrev last_of : Sample → List Sample → Sample
last_of a [] = a
last_of a (b ∷ more) = last_of b more

-- `not window or sample["stamp_ns"] != window[-1]["stamp_ns"]`, then `window.append(sample)`
abbrev add_sample : Sample → List Sample → List Sample
add_sample sample [] = sample ∷ []
add_sample sample (a ∷ more) =
    if sample.stamp_ns == (last_of a more).stamp_ns then a ∷ more else a ∷ more ++ sample ∷ []

-- What the publishing loop knows from its first command on: when it was sent, the deadline, and when the
-- last command was sent.
pub record Timing : Type 0 where
  pub started : Num
  pub deadline : Num
  pub last_publish : Num

module _ ⦃u : Fpu⦄ where
  -- The loop that pops the oldest samples while the rest still spans `seconds`
  abbrev drop_old : Num → List Sample → List Sample
  drop_old seconds [] = []
  drop_old seconds (a ∷ []) = a ∷ []
  drop_old seconds (a ∷ b ∷ more) =
      if le seconds (u.sub (last_of b more).received_s b.received_s)
      then drop_old seconds (b ∷ more)
      else a ∷ b ∷ more

  module _ (g : Trig) where
    abbrev is_slow : Sample → Bool
    is_slow s = le (g.hypot s.vx s.vy) still_angle && le (fabs s.wz) still_turn

    abbrev all_slow : List Sample → Bool
    all_slow [] = true
    all_slow (s ∷ more) = is_slow s && all_slow more

    -- `max` of the window's values
    abbrev largest : (Displacement → Num) → Sample → Num → List Sample → Num
    largest value first m [] = m
    largest value first m (s ∷ more) =
        largest value first (fmax m (value (displacement g first s forward))) more

    abbrev spans : Num → Sample → List Sample → Bool
    spans seconds a more =
        not (ltb (length (a ∷ more)) 5)
        && not (lt (u.sub (last_of a more).received_s a.received_s) seconds)

    abbrev at_rest : Sample → List Sample → Bool
    at_rest a more =
        let largest_of = λ (value : Displacement → Num).
          largest value a (value (displacement g a a forward)) more in
        le (largest_of (λ d. d.net_distance_m)) still_distance
        && (le (largest_of (λ d. fabs d.yaw_rad)) still_angle && all_slow (a ∷ more))

    -- The window is long enough and shows a base at rest.
    unfoldable pub is_stationary : Num → List Sample → Bool
    is_stationary seconds [] = false
    is_stationary seconds (a ∷ more) = spans seconds a more && at_rest a more

    module _ (w : World) where
      -- The window after a new sample
      unfoldable pub slide : Num → Sample → List Sample → List Sample
      slide seconds sample window = drop_old seconds (add_sample sample window)

      abbrev pub judge_window :
          (List Sample → M State Sample) → Num → List Sample → Sample → M State Sample
      judge_window rest seconds window sample =
          if is_stationary seconds (slide seconds sample window)
          then pure sample
          else rest (slide seconds sample window)

      abbrev pub watch_once :
          (List Sample → M State Sample) → Num → Bool → List Sample → Num → M State Sample
      watch_once rest seconds ready window now =
          check_sample w now ready >>= judge_window rest seconds window

      abbrev pub watch_until :
          (List Sample → M State Sample) → Num → Num → Bool → List Sample → Num → M State Sample
      watch_until rest deadline seconds ready window now =
          if lt now deadline
          then (do
            call w.on_publish (publish (nought, nought))
            call w.on_spin (spin period)
            read_clock w >>= watch_once rest seconds ready window)
          else raise (runtime_error "Odometry did not become stationary within the stop deadline")

      -- The loop of `stationary`, on fuel
      unfoldable pub watch : ℕ → Num → Num → Bool → List Sample → M State Sample
      watch zero deadline seconds ready window = out_of_fuel
      watch (suc fuel) deadline seconds ready window =
          read_clock w
          >>= watch_until (watch fuel deadline seconds ready) deadline seconds ready window

      unfoldable pub stationary : ℕ → Num → Bool → M State Sample
      stationary fuel seconds ready = do
        now ← read_clock w
        watch fuel (u.add now stop_timeout) seconds ready []
