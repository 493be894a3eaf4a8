-- ===== src/Effect/Ends.antt =====
-- Calls that end: they return or raise, and do not use up their fuel.
use lekiwi.Prelude.{◌≡◌, ◌≢◌, refl, Bool, true, false, List, ◌∷◌, if◌then◌else◌}
use lekiwi.Effect.{Exn, running, M, pure, raise, ◌>>=◌, Reply, answer, failure, ask}

pub record Ends {S A : Type 0} (m : M S A) (s : S) : Type 0 where
  pub ends : (m s).0 ≢ running

module _ {S A : Type 0} where
  pub Ends-pure : {a : A} {s : S} → Ends (pure a) s
  Ends-pure = record { ends = λ r. cc r }

  pub Ends-raise : {x : Exn} {s : S} → Ends (raise {A = A} x) s
  Ends-raise = record { ends = λ r. cc r }

  pub Ends-if :
      {m n : M S A} {s : S} (b : Bool)
      → (b ≡ true → Ends m s)
      → (b ≡ false → Ends n s)
      → Ends (if b then m else n) s
  Ends-if true yes_ no_ = yes_ refl
  Ends-if false yes_ no_ = no_ refl

module _ {C A B : Type 0} (reply : List C → Reply A) (c : C) (f : A → M (List C) B)
    {h : List C} where
  -- A chain that begins with a call ends, if what follows the call ends for every answer.
  pub Ends-ask :
      ((a : A) → reply (c ∷ h) ≡ answer a → Ends (f a) (c ∷ h)) → Ends (ask reply c >>= f) h
  Ends-ask more = record { ends = go (reply (c ∷ h)) more }
    where
      go :
          (r : Reply A)
          → ((a : A) → r ≡ answer a → Ends (f a) (c ∷ h))
          → ((ask (λ _. r) c >>= f) h).0 ≢ running
      go (answer a) more = (more a refl).ends
      go (failure x) more = λ e. cc e

module _ {C A B D : Type 0} (reply : List C → Reply A) (c : C) (g : A → D) (f : D → M (List C) B)
    {h : List C} where
  -- The same where the answer is put to use before the chain goes on.
  pub Ends-ask-map :
      ((a : A) → reply (c ∷ h) ≡ answer a → Ends (f (g a)) (c ∷ h))
      → Ends (ask reply c >>= (λ a. pure (g a)) >>= f) h
  Ends-ask-map more = record { ends = go (reply (c ∷ h)) more }
    where
      go :
          (r : Reply A)
          → ((a : A) → r ≡ answer a → Ends (f (g a)) (c ∷ h))
          → ((ask (λ _. r) c >>= (λ a. pure (g a)) >>= f) h).0 ≢ running
      go (answer a) more = (more a refl).ends
      go (failure x) more = λ e. cc e
