-- ===== src/Lib.antt =====
-- Supervised wheel control of LeKiwi: what the Python programs under lekiwi_teleop command, and when; and
-- the check of the robot's sensors under lekiwi-sensor-check.
--
-- An operator drives the base with keys. A speed profile turns keys into a motion; a session sends one
-- motion per tick to the endpoint, which publishes it and holds the motor power; and however the
-- session ends, a cleanup sends zero commands and cuts the power.
--
-- Which file models which part:
--   MotorSession         lekiwi_teleop/lekiwi_teleop/motor_session.py: Motion, the endpoint's calls,
--                        cleanup_session. Cleanup has its result; Power has request_motor_power and
--                        wait_for_motor_ready, Power/Acknowledged when they return.
--   GuardedTeleop        lekiwi_teleop/lekiwi_teleop/guarded_base_teleop.py, in these modules:
--     Ramp               _make_simple_profile
--     Directional        DirectionalSpeedProfile (handle_key, next_motion); Envelope and Stops have its
--                        bounds and its standstill
--     HeldKeys           HeldKeySpeedProfile (press, release, stop, next_motion); Keys, Invariant,
--                        Drive and Stops have its invariant, its ticks and its stops, and Abstract
--                        the set of held keys that it keeps
--     Session            GuardedTeleopConfig, run_guarded_session and _handle_cleanup_failure; Cleanup,
--                        Armed and Termination are about how it ends, what it sends and that it ends
--     Window             HoldTeleopWindow; Handlers has its events, Keeps what they keep of a claim,
--                        Envelope, Still and Closing what they send and when they close
--   SafeCmdVel           lekiwi_teleop/lekiwi_teleop/safe_cmd_vel.py: the checks and the plan of a request;
--                        Run has the waits, publish_plan and main, Request and Ending their results
--   BaseTeleop           lekiwi_teleop/lekiwi_teleop/base_teleop.py: BaseTeleopMapper and
--                        publish_for_key; Limits has their bounds. Main has main, and Ending how it ends
--   OdomCalibration      lekiwi_teleop/lekiwi_teleop/odom_calibration.py: the recommended scale
--   NavGuard             lekiwi_teleop/lekiwi_teleop/nav2_motor_guard.py: the checks before power on; Session
--                        has the calls, publish_zero and the first half of supervise, Main its second
--                        half and main. Keeps, Guarded, Watch and Armed are about what comes before a
--                        power on, Ending about how a session ends
--   TestServer           lekiwi_bringup/tools/diagnostics/test_service_server.py: TestJobs. Report has its
--                        reports, Poll its poll, Requests its start, status, cancel and close; Discipline
--                        is about the order of the calls, Verdict about the final states
--   DistanceTrial        lekiwi_teleop/lekiwi_teleop/distance_trial.py: Trial, displacement and
--                        validate_parameters; Endpoint has check_sample, Run stationary, Motion run_trial,
--                        Compare compare; Keeps, Moves, Lifecycle, Waits and Termination are about what a
--                        run sends and how it ends, Settling and Completed about its end sample and its
--                        report, Values and Accepted about what the checks let through;
--                        Samples has on_odom of distance_trial_ros.py, and Steady is about what it keeps
--   SensorCheck          lekiwi-sensor-check/check_sensors.py: result and native_checks. Record has the probes'
--                        records, Imu and Lidar their evaluation, Device the choice and the check of a
--                        device, Probe the measuring program, Main the run; Passed and Verdict are about
--                        a passed evaluation, Clean and Outcomes about a probe that ran as it should,
--                        Unreported about what happens before the report, Exit about the exit status, and
--                        Preflight about a device that is let through
--   Float                Python's float as an IEEE 754 bit pattern: comparisons are exact and run, and
--                        rounded arithmetic is the parameter Fpu, with the laws that the code relies on
--   Effect               calls that read the world, raise and clean up; Triple, Ends and Sure reason on
--                        them, and State on calls that are noted in a state
--   Prelude              the names and list lemmas that all share
--
-- The endpoint, the clock, the keyboard, the window system and the error output are parameters
-- (MotorSession.World, MotorSession.Power.Service, GuardedTeleop.Window.Desktop, SafeCmdVel.Run.World,
-- TestServer.World, DistanceTrial.Endpoint.World, SensorCheck.Device.World,
-- NavGuard.Session.World, BaseTeleop.Main.World):
-- functions from all the calls so far to an answer or an exception, so that any call may fail at any
-- time. The history of calls is the state. Loops that wait for the clock are recursion on fuel; for the
-- keyboard loop, Termination shows how much is enough when the clock runs. The waits of SafeCmdVel
-- and of Power, the loops of NavGuard and the keyboard loop of BaseTeleop have no such theorem: what is said
-- of how these programs end supposes that their try block ends. SensorCheck has no loop on fuel. The
-- loops of DistanceTrial end if the clock passes their deadlines within the fuel's number of calls; the
-- loop of TestServer's close is on fuel too, and its results hold whatever the fuel.
--
-- Integers are the native natural numbers, but for those of the probes' records, which have a sign:
-- zero_cycles is at least 0. Texts of errors leave out the
-- numbers that the code formats into them, and the status line is its stage and key.
--
-- Not modelled: the argument parsers and the terminal, the GUI session around the window, the files that
-- SensorCheck writes, and the other programs of the repository; the C++ nodes,
-- launch files and vendored drivers.
pub mod Prelude
pub mod Float
pub mod Effect
pub mod MotorSession
pub mod GuardedTeleop
pub mod SafeCmdVel
pub mod SensorCheck
pub mod OdomCalibration
pub mod BaseTeleop
pub mod NavGuard
pub mod TestServer
pub mod DistanceTrial
