-- ===== src/Effect/Triple.antt =====
-- Hoare triples for such calls: what holds when a call returns, and what holds when it does not.
use lekiwi.Prelude.{
  ℕ, zero, suc, ◌≡◌, refl, sym, ap, ◌∙◌, Bool, true, false, not, List, ◌∷◌, if◌then◌else◌,
}
use lekiwi.Effect.{
  Exn, Outcome, value, raised, running, M, pure, raise, out_of_fuel, ◌>>=◌, repeat, Reply, answer,
  failure, ask, outcome,
}

module _ {S : Type 0} where
  -- What is claimed of an outcome and the state that came with it.
  abbrev pub Post : {A : Type 0} → (A → S → Type 0) → (S → Type 0) → Outcome A × S → Type 0
  Post Q E (value a, s) = Q a s
  Post Q E (raised e, s) = E s
  Post Q E (running, s) = E s

  -- From a state with `P`, `m` returns `a` in a state with `Q a`, or does not return, in one with `E`.
  pub record Triple {A : Type 0} (P : S → Type 0) (m : M S A) (Q : A → S → Type 0) (E : S → Type 0)
      : Type 0 where
    pub holds : (s : S) → P s → Post Q E (m s)

module _ {S A B : Type 0} {P : S → Type 0} {Q : A → S → Type 0} {R : B → S → Type 0}
    {E : S → Type 0} where
  pub Triple-bind :
      {m : M S A} {f : A → M S B}
      → Triple P m Q E
      → ((a : A) → Triple (Q a) (f a) R E)
      → Triple P (m >>= f) R E
  Triple-bind {m} {f} first second = record { holds = λ s p. go s (m s) (first.holds s p) }
    where
      go : (s : S) (r : Outcome A × S) → Post Q E r → Post R E (◌>>=◌ (λ _. r) f s)
      go s (value a, t) q = (second a).holds t q
      go s (raised e, t) q = q
      go s (running, t) q = q

module _ {S A : Type 0} {P : S → Type 0} {Q : A → S → Type 0} {E : S → Type 0} where
  pub Triple-pure : {a : A} → ((s : S) → P s → Q a s) → Triple P (pure a) Q E
  Triple-pure h = record { holds = h }

  pub Triple-raise : {e : Exn} → ((s : S) → P s → E s) → Triple P (raise e) Q E
  Triple-raise h = record { holds = h }

  pub Triple-out_of_fuel : ((s : S) → P s → E s) → Triple P out_of_fuel Q E
  Triple-out_of_fuel h = record { holds = h }

  pub Triple-if :
      {m n : M S A} (b : Bool)
      → (b ≡ true → Triple P m Q E)
      → (b ≡ false → Triple P n Q E)
      → Triple P (if b then m else n) Q E
  Triple-if true yes_ no_ = yes_ refl
  Triple-if false yes_ no_ = no_ refl

  pub Triple-weaken :
      {m : M S A} {P' : S → Type 0} {Q' : A → S → Type 0} {E' : S → Type 0}
      → Triple P m Q E
      → ((s : S) → P' s → P s)
      → ((a : A) (s : S) → Q a s → Q' a s)
      → ((s : S) → E s → E' s)
      → Triple P' m Q' E'
  Triple-weaken {m} {P'} {Q'} {E'} t before returned not_returned = record {
    holds = λ s p. go (m s) (t.holds s (before s p));
  }
    where
      go : (r : Outcome A × S) → Post Q E r → Post Q' E' r
      go (value a, s) q = returned a s q
      go (raised e, s) q = not_returned s q
      go (running, s) q = not_returned s q

module _ {C A : Type 0} where
  -- A call is in the history afterwards, whatever the world answers.
  pub Triple-ask :
      {P : List C → Type 0} {Q : A → List C → Type 0} {E : List C → Type 0}
      (reply : List C → Reply A) (c : C)
      → ((h : List C) (a : A) → P h → reply (c ∷ h) ≡ answer a → Q a (c ∷ h))
      → ((h : List C) (e : Exn) → P h → reply (c ∷ h) ≡ failure e → E (c ∷ h))
      → Triple P (ask reply c) Q E
  Triple-ask {P} {Q} {E} reply c good bad = record { holds = λ h p. go h p (reply (c ∷ h)) refl }
    where
      go : (h : List C) → P h → (r : Reply A) → reply (c ∷ h) ≡ r → Post Q E (outcome r, c ∷ h)
      go h p (answer a) e = good h a p e
      go h p (failure x) e = bad h x p e

module _ {S : Type 0} {P : S → Type 0} {E : S → Type 0} where
  -- The loop `for _ in range(n)` keeps what its body keeps.
  pub Triple-repeat :
      (n : ℕ) {m : M S (Unit {0})} → Triple P m (λ _. P) E → Triple P (repeat n m) (λ _. P) E
  unfolding repeat
  Triple-repeat zero t = Triple-pure (λ s p. p)
  Triple-repeat (suc n) t = Triple-bind t (λ _. Triple-repeat n t)

-- One claim for every outcome is a claim about the state.
pub Post-same : {S A : Type 0} (P : S → Type 0) (r : Outcome A × S) → Post (λ _. P) P r → P r.1
Post-same P (value a, s) p = p
Post-same P (raised e, s) p = p
Post-same P (running, s) p = p

-- Of any outcome nothing is claimed.
pub Triple-any :
    {S A : Type 0} {P : S → Type 0} (m : M S A) → Triple P m (λ _ _. Unit {0}) (λ _. Unit)
Triple-any {S} {A} m = record { holds = λ s p. go (m s) }
  where
    go : (r : Outcome A × S) → Post {S = S} (λ _ _. Unit {0}) (λ _. Unit {0}) r
    go (value a, s) = tt
    go (raised e, s) = tt
    go (running, s) = tt

-- Two claims of one computation
pub Triple-both :
    {S A : Type 0} {P P' : S → Type 0} {Q Q' : A → S → Type 0} {E E' : S → Type 0} {m : M S A}
    → Triple P m Q E
    → Triple P' m Q' E'
    → Triple (λ s. P s × P' s) m (λ a s. Q a s × Q' a s) (λ s. E s × E' s)
Triple-both {S} {A} {P} {P'} {Q} {Q'} {E} {E'} {m} first second = record {
  holds = λ s p. go (m s) (first.holds s p.0) (second.holds s p.1);
}
  where
    go :
        (r : Outcome A × S)
        → Post Q E r
        → Post Q' E' r
        → Post (λ a s. Q a s × Q' a s) (λ s. E s × E' s) r
    go (value a, s) q q' = (q, q')
    go (raised e, s) q q' = (q, q')
    go (running, s) q q' = (q, q')

-- A claim about what was read, and not about the state, is a hypothesis.
pub Triple-given :
    {S A : Type 0} {R : Type 0} {Q : A → S → Type 0} {E : S → Type 0} {m : M S A}
    → (R → Triple (λ _. Unit {0}) m Q E)
    → Triple (λ _. R) m Q E
Triple-given h = record { holds = λ s r. (h r).holds s tt }

module _ {C A B : Type 0} {Q : B → List C → Type 0} where
  -- What follows a call, from one history on, is claimed of what the call answered.
  pub Triple-at :
      (reply : List C → Reply A) (c : C) {k : A → M (List C) B} {h : List C}
      → ((a : A) → reply (c ∷ h) ≡ answer a → Triple (λ s. s ≡ c ∷ h) (k a) Q (λ _. Unit {0}))
      → Triple (λ s. s ≡ h) (ask reply c >>= k) Q (λ _. Unit {0})
  Triple-at reply c {k} {h} next =
      Triple-bind {Q = λ a s. (s ≡ c ∷ h) × (reply (c ∷ h) ≡ answer a)}
        (Triple-ask reply c (λ s a p e. (ap (λ t. c ∷ t) p, sym (ap (λ t. reply (c ∷ t)) p) ∙ e))
          (λ s e p q. tt))
        (λ a. record { holds = λ s p. (next a p.1).holds s p.0 })

module _ {S A : Type 0} {P : S → Type 0} {Q : A → S → Type 0} where
  -- What follows a test that raises unless it holds is claimed where it holds.
  pub Triple-unless :
      (b : Bool) (e : Exn) {m : M S A}
      → (b ≡ true → Triple P m Q (λ _. Unit {0}))
      → Triple P (if not b then raise e else m) Q (λ _. Unit {0})
  Triple-unless true e h = h refl
  Triple-unless false e h = Triple-raise (λ s p. tt)
