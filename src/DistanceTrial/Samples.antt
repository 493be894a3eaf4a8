-- ===== src/DistanceTrial/Samples.antt =====
-- lekiwi_teleop/lekiwi_teleop/distance_trial_ros.py: the odometry messages that `on_odom` accepts.
use lekiwi.Prelude.{
  ℕ, ◌+◌, ◌-◌, ◌*◌, Bool, true, not, ◌&&◌, Option, none, some, String, str_eq, List, [], ◌∷◌, ◌++◌,
  ltb, leb,
}
use lekiwi.Float.{Num, one, isfinite, le, lt, fabs}
use lekiwi.Float.Fpu.{Fpu}
use lekiwi.DistanceTrial.{Sample, Trig, forward, displacement, require, three_tenths, period}

-- The fields of an `Odometry` message that are read. A stamp before 1970 is left out.
pub record Message : Type 0 where
  pub px : Num
  pub py : Num
  pub pz : Num
  pub qx : Num
  pub qy : Num
  pub qz : Num
  pub qw : Num
  pub vx : Num
  pub vy : Num
  pub wz : Num
  pub sec : ℕ
  pub nanosec : ℕ
  pub frame_id : String
  pub child_frame_id : String

-- `latest`, `error`, `samples` and `expected_frames`
pub record Endpoint : Type 0 where
  pub latest : Option Sample
  pub error : Option String
  pub samples : List Sample
  pub expected_frames : Option (String × String)

-- `__init__`
abbrev pub new_endpoint : Endpoint
new_endpoint = record { latest = none; error = none; samples = []; expected_frames = none }

-- 2.0, 0.01 and 0.2
abbrev two : Num
two = 0x4000000000000000

abbrev hundredth : Num
hundredth = 0x3f847ae147ae147b

abbrev pub fifth : Num
fifth = 0x3fc999999999999a

-- 300_000_000
abbrev pub max_stamp_age : ℕ
max_stamp_age = 300000000

unfoldable pub all_finite : List Num → Bool
all_finite [] = true
all_finite (x ∷ xs) = isfinite x && all_finite xs

abbrev pub stamp_of : Message → ℕ
stamp_of m = m.sec * 1000000000 + m.nanosec

-- `abs(now - stamp) <= 300_000_000`
abbrev pub is_current : ℕ → ℕ → Bool
is_current now stamp = leb (now - stamp) max_stamp_age && leb (stamp - now) max_stamp_age

abbrev pub is_expected : Option (String × String) → Message → Bool
is_expected none m = true
is_expected (some (frame, child)) m = str_eq m.frame_id frame && str_eq m.child_frame_id child

-- What comes to the endpoint: a message, with the readings of the two clocks, or, from `parameters`, the
-- frames that the base is set to
pub data Event : Type 0 where
  arrived : ℕ → Num → Message → Event
  answered : String × String → Event

module _ (g : Trig) ⦃u : Fpu⦄ where
  -- `abs(q.x*q.x + q.y*q.y + q.z*q.z + q.w*q.w - 1) < .01`
  abbrev pub is_unit : Message → Bool
  is_unit m =
      lt
        (fabs (
          u.sub
            (u.add (u.add (u.add (u.mul m.qx m.qx) (u.mul m.qy m.qy)) (u.mul m.qz m.qz))
              (u.mul m.qw m.qw))
            one))
        hundredth

  -- `sample`, received at `received_s`
  unfoldable pub sample_of : Num → Message → Sample
  sample_of received_s m = record {
    received_s = received_s;
    stamp_ns = stamp_of m;
    frame = m.frame_id;
    child = m.child_frame_id;
    x = m.px;
    y = m.py;
    yaw =
        g.atan2 (u.mul two (u.add (u.mul m.qw m.qz) (u.mul m.qx m.qy)))
          (u.sub one (u.mul two (u.add (u.mul m.qy m.qy) (u.mul m.qz m.qz))));
    vx = m.vx;
    vy = m.vy;
    wz = m.wz;
  }

  -- The requirements on the step from the latest sample, as the message of the first that fails
  unfoldable pub check_step : Sample → Sample → Option String
  check_step latest sample =
      require (ltb latest.stamp_ns sample.stamp_ns) "Odometry timestamp did not advance" (
        require (str_eq sample.frame latest.frame && str_eq sample.child latest.child)
          "Odometry frame changed"
          (require (le (g.hypot (u.sub sample.x latest.x) (u.sub sample.y latest.y)) period)
            "Odometry jumped or was reset"
            (require (le (fabs (displacement g latest sample forward).yaw_rad) fifth)
              "Odometry yaw jumped or was reset"
              (require (le (u.sub sample.received_s latest.received_s) three_tenths)
                "Odometry sample gap exceeded 0.3 seconds" none))))

  abbrev pub check_latest : Option Sample → Sample → Option String
  check_latest none sample = none
  check_latest (some latest) sample = check_step latest sample

  -- All requirements of `on_odom`
  unfoldable pub check_message : Endpoint → ℕ → Num → Message → Option String
  check_message e now received_s m =
      require
        (all_finite (m.px ∷ m.py ∷ m.pz ∷ m.qx ∷ m.qy ∷ m.qz ∷ m.qw ∷ m.vx ∷ m.vy ∷ m.wz ∷ []))
        "Non-finite odometry"
        (require (is_unit m) "Invalid odometry quaternion" (
          require (ltb 0 (stamp_of m)) "Zero odometry timestamp" (
            require (is_current now (stamp_of m)) "Stale odometry header timestamp" (
              require (not (str_eq m.frame_id "") && not (str_eq m.child_frame_id ""))
                "Empty odometry frame"
                (require (is_expected e.expected_frames m) "Unexpected odometry frames"
                  (check_latest e.latest (sample_of received_s m)))))))

  -- A message is kept, or its error is.
  abbrev pub keep : Endpoint → Sample → Option String → Endpoint
  keep e sample none = record e { latest = some sample; samples = e.samples ++ sample ∷ [] }
  keep e sample (some message) = record e { error = some message }

  -- `on_odom`, with the node's clock in nanoseconds and the reading of the monotonic clock
  unfoldable pub on_odom : ℕ → Num → Message → Endpoint → Endpoint
  on_odom now received_s m e = keep e (sample_of received_s m) (check_message e now received_s m)

  abbrev pub handle_event : Event → Endpoint → Endpoint
  handle_event (arrived now received_s m) e = on_odom now received_s m e
  handle_event (answered frames) e = record e { expected_frames = some frames }

  -- Events, latest first
  unfoldable pub receive : List Event → Endpoint
  receive [] = new_endpoint
  receive (event ∷ events) = handle_event event (receive events)
