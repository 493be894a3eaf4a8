-- ===== src/Effect/Sure.antt =====
-- What holds of the state in the end, whether calls returned or raised.
use lekiwi.Effect.State.{modify, reads, request}
use lekiwi.Prelude.{
  ◌≡◌, ◌≢◌, refl, ℕ, zero, suc, Bool, true, false, Option, none, some, List, ◌∷◌, if◌then◌else◌,
}
use lekiwi.Effect.{
  Exn, Outcome, value, raised, running, M, pure, raise, ◌>>=◌, repeat, finally_with, after_value,
  after_raise, catch, catch_kind, Kind, Reply, answer, failure, ask, outcome,
}

-- From a state with `P`, `m` ends, by returning or by raising, in a state with `Q`.
pub record Sure {S A : Type 0} (P : S → Type 0) (m : M S A) (Q : S → Type 0) : Type 0 where
  pub sure : (s : S) → P s → ((m s).0 ≢ running) × Q (m s).1

value≢running : {A : Type 0} {a : A} → let r : Outcome A = value a in r ≢ running
value≢running e = cc e

raised≢running : {A : Type 0} {x : Exn} → let r : Outcome A = raised x in r ≢ running
raised≢running e = cc e

module _ {C A : Type 0} {P Q : List C → Type 0} where
  pub Sure-ask :
      (reply : List C → Reply A) (c : C) → ((h : List C) → P h → Q (c ∷ h)) → Sure P (ask reply c) Q
  Sure-ask reply c step = record { sure = λ h p. (go (reply (c ∷ h)), step h p) }
    where
      go : (r : Reply A) → outcome r ≢ running
      go (answer a) = value≢running
      go (failure x) = raised≢running

module _ {S A : Type 0} {P Q : S → Type 0} where
  pub Sure-pure : {a : A} → ((s : S) → P s → Q s) → Sure P (pure a) Q
  Sure-pure h = record { sure = λ s p. (value≢running, h s p) }

  pub Sure-raise : {x : Exn} → ((s : S) → P s → Q s) → Sure P (raise {A = A} x) Q
  Sure-raise h = record { sure = λ s p. (raised≢running, h s p) }

  pub Sure-if : {m n : M S A} (b : Bool) → Sure P m Q → Sure P n Q → Sure P (if b then m else n) Q
  Sure-if true h k = h
  Sure-if false h k = k

module _ {S A B : Type 0} {P Q R : S → Type 0} where
  -- The second part may be left out by an exception of the first.
  pub Sure-bind :
      {m : M S A} {f : A → M S B}
      → Sure P m Q
      → ((a : A) → Sure Q (f a) R)
      → ((s : S) → Q s → R s)
      → Sure P (m >>= f) R
  Sure-bind {m} {f} h k left_out = record { sure = λ s p. go s (m s) (h.sure s p) }
    where
      go :
          (s : S) (r : Outcome A × S)
          → (r.0 ≢ running) × Q r.1
          → ((◌>>=◌ (λ (_ : S). r) f s).0 ≢ running) × R (◌>>=◌ (λ (_ : S). r) f s).1
      go s (value a, t) (_, q) = (k a).sure t q
      go s (raised x, t) (_, q) = (raised≢running, left_out t q)
      go s (running, t) (n, _) = absurd (n refl)

module _ {S A : Type 0} {Q R : S → Type 0} where
  -- The last part runs after a call that ended.
  pub finally-ends :
      (m : M S A) (last : Option Exn → M S (Option Exn)) (s : S)
      → ((m s).0 ≢ running) × Q (m s).1
      → ((e : Option Exn) → Sure Q (last e) R)
      → ((finally_with m last s).0 ≢ running) × R (finally_with m last s).1
  unfolding finally_with
  finally-ends m last s h k = go (m s) h
    where
      kept : (a : A) (o : Outcome (Option Exn)) → o ≢ running → after_value a o ≢ running
      kept a (value _) n = value≢running
      kept a (raised x) n = raised≢running
      kept a running n = absurd (n refl)

      noted : (e : Exn) (o : Outcome (Option Exn)) → o ≢ running → after_raise {A = A} e o ≢ running
      noted e (value none) n = raised≢running
      noted e (value (some x)) n = raised≢running
      noted e (raised x) n = raised≢running
      noted e running n = absurd (n refl)

      go :
          (r : Outcome A × S)
          → (r.0 ≢ running) × Q r.1
          → ((finally_with (λ (_ : S). r) last s).0 ≢ running)
            × R (finally_with (λ (_ : S). r) last s).1
      go (value a, t) (_, q) = let (n, v) = (k none).sure t q in (kept a (last none t).0 n, v)
      go (raised e, t) (_, q) =
          let (n, v) = (k (some e)).sure t q in (noted e (last (some e) t).0 n, v)
      go (running, t) (n, _) = absurd (n refl)

module _ {S A : Type 0} {P Q R : S → Type 0} where
  -- The last part runs in any case.
  pub Sure-finally :
      {m : M S A} {last : Option Exn → M S (Option Exn)}
      → Sure P m Q
      → ((e : Option Exn) → Sure Q (last e) R)
      → Sure P (finally_with m last) R
  Sure-finally {m} {last} h k = record { sure = λ s p. finally-ends m last s (h.sure s p) k }

module _ {S : Type 0} {P : S → Type 0} where
  pub Sure-repeat : (n : ℕ) {m : M S (Unit {0})} → Sure P m P → Sure P (repeat n m) P
  unfolding repeat
  Sure-repeat zero h = Sure-pure (λ s p. p)
  Sure-repeat (suc n) h = Sure-bind h (λ _. Sure-repeat n h) (λ s p. p)

module _ {S : Type 0} {P Q : S → Type 0} where
  pub Sure-reads :
      {A : Type 0} {f : S → M S A}
      → ((s : S) → P s → Sure (λ t. t ≡ s) (f s) Q)
      → Sure P (reads f) Q
  unfolding reads
  Sure-reads h = record { sure = λ s p. (h s p).sure s refl }

  pub Sure-modify : (f : S → S) → ((s : S) → P s → Q (f s)) → Sure P (modify f) Q
  unfolding modify
  Sure-modify f h = record { sure = λ s p. (value≢running, h s p) }

  pub Sure-request :
      {A : Type 0} (reply : S → Reply A) (note : S → S)
      → ((s : S) → P s → Q (note s))
      → Sure P (request reply note) Q
  unfolding request
  Sure-request {A} reply note h = record { sure = λ s p. (go (reply (note s)), h s p) }
    where
      go : (r : Reply A) → outcome r ≢ running
      go (answer a) = value≢running
      go (failure x) = raised≢running

  pub Sure-weaken :
      {A : Type 0} {m : M S A} {P' Q' : S → Type 0}
      → Sure P m Q
      → ((s : S) → P' s → P s)
      → ((s : S) → Q s → Q' s)
      → Sure P' m Q'
  Sure-weaken h before after = record {
    sure = λ s p. let (n, q) = h.sure s (before s p) in (n, after _ q);
  }

module _ {S A : Type 0} {P Q R : S → Type 0} where
  pub Sure-catch :
      {m : M S A} {handler : Exn → M S A}
      → Sure P m Q
      → ((e : Exn) → Sure Q (handler e) R)
      → ((s : S) → Q s → R s)
      → Sure P (catch m handler) R
  Sure-catch {m} {handler} h k uncaught = record { sure = λ s p. go (m s) (h.sure s p) }
    where
      go :
          (r : Outcome A × S)
          → (r.0 ≢ running) × Q r.1
          → ((catch (λ (_ : S). r) handler r.1).0 ≢ running)
            × R (catch (λ (_ : S). r) handler r.1).1
      go (value a, t) (n, q) = (value≢running, uncaught t q)
      go (raised e, t) (n, q) = (k e).sure t q
      go (running, t) (n, q) = absurd (n refl)

  -- A handler that takes some classes of exceptions
  pub Sure-catch_kind :
      (takes : Kind → Bool) {m : M S A} {handler : Exn → M S A}
      → Sure P m Q
      → ((e : Exn) → Sure Q (handler e) R)
      → ((s : S) → Q s → R s)
      → Sure P (catch_kind takes m handler) R
  Sure-catch_kind takes h k uncaught =
      Sure-catch h (λ e. Sure-if (takes e.kind) (k e) (Sure-raise uncaught)) uncaught
