-- ===== src/OdomCalibration/Tests.antt =====
-- A measured metre.
use lekiwi.Prelude.{◌≡◌, ◌⊎◌}
use lekiwi.Float.{one}
use lekiwi.Float.Fixed.{fixed}
use lekiwi.OdomCalibration.{Recommendation, main, usage_error, printed, main-IsHandled}

main-IsHandled_example :
    (main one one one ≡ usage_error) ⊎ ((r : Recommendation) × (main one one one ≡ printed r))
main-IsHandled_example = main-IsHandled one one one
