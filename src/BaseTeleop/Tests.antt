-- ===== src/BaseTeleop/Tests.antt =====
-- The default mapper and one faster, with a concrete arithmetic.
use lekiwi.Prelude.{◌≡◌, ◌≢◌, refl, sym, ◌∙◌, ℕ, suc, ltb, true, some, List, [], ◌∷◌, if◌then◌else◌}
use lekiwi.Effect.{Reply, answer, value, running, repeat, finally_with}
use lekiwi.Effect.State.{modify, reads, request}
use lekiwi.BaseTeleop.{factor_for_key, twist_for_key, is_exit_key}
use lekiwi.BaseTeleop.Main.{
  Call, read_key, World, call, publish_stop, perform, drive, attempt_drive, main, at_start,
}
use lekiwi.BaseTeleop.Ending.{IsStill, main-IsStill}
use lekiwi.Float.{rank, is_nan, isfinite, le, lt, fmin, fmax}
use lekiwi.Float.Fixed.{fixed}
use lekiwi.BaseTeleop.{default_mapper, clamp, post_init, publish_for_key}
use lekiwi.BaseTeleop.Limits.{IsNumeric, IsValid, IsSafe, post_init-IsValid, publish_for_key-IsSafe}

default-IsNumeric : IsNumeric default_mapper
unfolding isfinite
default-IsNumeric = record {
  step = refl;
  min_linear = refl;
  max_linear = refl;
  min_angular = refl;
  max_angular = refl;
}

default_made : post_init default_mapper ≡ some default_mapper
unfolding post_init clamp le lt is_nan rank fmin fmax
default_made = refl

post_init-IsValid_example : IsValid default_mapper
unfolding is_nan
post_init-IsValid_example =
    post_init-IsValid default_mapper default_mapper default-IsNumeric refl refl default_made

default-IsValid : IsValid default_mapper
unfolding is_nan
default-IsValid =
    post_init-IsValid default_mapper default_mapper default-IsNumeric refl refl default_made

publish_for_key-IsSafe_example : IsSafe default_mapper (publish_for_key default_mapper "+")
publish_for_key-IsSafe_example = publish_for_key-IsSafe default_mapper "+" default-IsValid

-- The operator drives forward, and then leaves.
abbrev count_keys : List Call → ℕ
count_keys [] = 0
count_keys (read_key ∷ h) = suc (count_keys h)
count_keys (c ∷ h) = count_keys h

abbrev done : List Call → Reply (Unit {0})
done _ = answer tt

abbrev at_desk : World
at_desk = record {
  on_create = λ _. answer default_mapper;
  on_terminal = done;
  on_ok = λ _. answer true;
  on_spin = done;
  on_read_key = λ h. answer (some (if ltb (count_keys h) 2 then "w" else "x"));
  on_publish = done;
  on_sleep = done;
  on_log = done;
  on_end = done;
}

drive-ended : (attempt_drive at_desk 3 at_start).0 ≡ value tt
unfolding attempt_drive drive perform publish_stop call publish_for_key factor_for_key twist_for_key
    is_exit_key request modify reads repeat finally_with
drive-ended = refl

main-IsStill_example :
    ((main at_desk 3 at_start).0 ≢ running) × IsStill (main at_desk 3 at_start).1.calls
main-IsStill_example = main-IsStill at_desk 3 (λ e. cc (sym drive-ended ∙ e))
