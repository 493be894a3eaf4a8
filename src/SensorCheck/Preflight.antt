-- ===== src/SensorCheck/Preflight.antt =====
-- When `preflight` lets a device through.
use lekiwi.Prelude.{
  ◌≡◌, refl, sym, ap, ◌∙◌, zero, suc, Bool, true, Option, none, some, String, str_eq, eq_iff, ◌∷◌,
}
use mathlib.Core.Path.{subst}
use lekiwi.Effect.{answer}
use lekiwi.Effect.Triple.{
  Triple, Triple-at, Triple-unless, Triple-if, Triple-pure, Triple-raise, Post,
}
use lekiwi.SensorCheck.Record.{ℤ, pos, negsuc}
use lekiwi.SensorCheck.Device.{
  resolve, exists, is_char_device, access, which_fuser, run_fuser, History, World, judge_fuser,
  check_free, when_allowed, when_device, when_found, when_allowed, when_device, when_found,
  preflight,
}

module _ (w : World) (device : String) (h : History) where
  -- The calls after those of the file's tests, each with its answer.
  abbrev tested : History
  tested = access device ∷ is_char_device device ∷ exists device ∷ h

  abbrev located : History
  located = resolve device ∷ which_fuser ∷ tested

  -- The device exists, is a character device that may be read and written, and `fuser` was run on the
  -- file that it stands for, and said with exit code 1 and no message that nobody uses it.
  pub data IsFree : History → Type 0 where
    free :
        (fuser : String) (resolved : String × String)
        → w.on_exists (exists device ∷ h) ≡ answer true
        → w.on_is_char_device (is_char_device device ∷ exists device ∷ h) ≡ answer true
        → w.on_access tested ≡ answer true
        → w.on_which (which_fuser ∷ tested) ≡ answer (some fuser)
        → w.on_resolve located ≡ answer resolved
        → w.on_fuser (run_fuser fuser resolved.0 ∷ located) ≡ answer (pos 1, "")
        → IsFree (run_fuser fuser resolved.0 ∷ located)

  abbrev Free : Unit {0} → History → Type 0
  Free _ t = IsFree t

  abbrev Always : History → Type 0
  Always _ = Unit

  judge-IsFree :
      (checked : ℤ × String) {t : History}
      → (checked ≡ (pos 1, "") → IsFree t)
      → Triple (λ s. s ≡ t) (judge_fuser w checked) Free Always
  judge-IsFree (pos zero, stderr) k = Triple-raise (λ s p. tt)
  judge-IsFree (pos (suc zero), stderr) {t} k =
      Triple-if (str_eq stderr "")
        (λ e. Triple-pure λ s p.
          subst IsFree (sym p)
            (k (ap (λ x. let r : ℤ × String = (pos 1, x) in r) ((eq_iff stderr "").0 e))))
        (λ e. Triple-raise (λ s p. tt))
  judge-IsFree (pos (suc (suc n)), stderr) k = Triple-raise (λ s p. tt)
  judge-IsFree (negsuc n, stderr) k = Triple-raise (λ s p. tt)

  check_free-IsFree :
      w.on_exists (exists device ∷ h) ≡ answer true
      → w.on_is_char_device (is_char_device device ∷ exists device ∷ h) ≡ answer true
      → w.on_access tested ≡ answer true
      → (found : Option String) → w.on_which (which_fuser ∷ tested) ≡ answer found
      → Triple (λ s. s ≡ which_fuser ∷ tested) (check_free w device found) Free Always
  check_free-IsFree e1 e2 e3 none e4 = Triple-raise (λ s p. tt)
  check_free-IsFree e1 e2 e3 (some fuser) e4 =
      Triple-at w.on_resolve (resolve device) λ resolved e5.
        Triple-at w.on_fuser (run_fuser fuser resolved.0) λ checked e6.
          judge-IsFree checked (λ e. free fuser resolved e1 e2 e3 e4 e5 (e6 ∙ ap answer e))

  when_allowed-Free :
      w.on_exists (exists device ∷ h) ≡ answer true
      → w.on_is_char_device (is_char_device device ∷ exists device ∷ h) ≡ answer true
      → (allowed : Bool) → w.on_access tested ≡ answer allowed
      → Triple (λ s. s ≡ tested) (when_allowed w device allowed) Free Always
  when_allowed-Free e1 e2 allowed e3 =
      Triple-unless allowed _
        λ t. Triple-at w.on_which which_fuser (check_free-IsFree e1 e2 (e3 ∙ ap answer t))

  when_device-Free :
      w.on_exists (exists device ∷ h) ≡ answer true
      → (is_device : Bool)
      → w.on_is_char_device (is_char_device device ∷ exists device ∷ h) ≡ answer is_device
      → Triple
          (λ s. s ≡ is_char_device device ∷ exists device ∷ h)
          (when_device w device is_device)
          Free
          Always
  when_device-Free e1 is_device e2 =
      Triple-unless is_device _
        λ t. Triple-at w.on_access (access device) (when_allowed-Free e1 (e2 ∙ ap answer t))

  when_found-Free :
      (found : Bool)
      → w.on_exists (exists device ∷ h) ≡ answer found
      → Triple (λ s. s ≡ exists device ∷ h) (when_found w device found) Free Always
  when_found-Free found e1 = Triple-unless found _ λ t.
      Triple-at w.on_is_char_device (is_char_device device) (when_device-Free (e1 ∙ ap answer t))

  -- `preflight` lets a device through only after the calls, and with the answers, that say that it
  -- exists, is a character device, may be read and written, and is used by no process.
  pub preflight-IsFree : Post Free Always (preflight w device h)
  unfolding preflight
  preflight-IsFree = (Triple-at w.on_exists (exists device) when_found-Free).holds h refl
