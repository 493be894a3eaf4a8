-- ===== src/Effect/State.antt =====
-- State that a program's calls change: reading it, changing it, and a call that is noted in it. Claims
-- about the state that every step keeps.
use lekiwi.Prelude.{Bool, true, false, Option, none, some, ◌≡◌, refl}
use lekiwi.Effect.{
  Exn, Kind, catch_kind, Outcome, after_value, after_raise, value, raised, running, M, pure, when,
  finally_with, catch, Reply, outcome, answer, failure,
}
use lekiwi.Effect.Triple.{Post, Post-same, Triple, Triple-pure, Triple-if, Triple-raise}

module _ {S : Type 0} where
  unfoldable pub modify : (S → S) → M S (Unit {0})
  modify f s = (value tt, f s)

  unfoldable pub reads : {A : Type 0} → (S → M S A) → M S A
  reads f s = f s s

  -- The call is noted in the state, and the answer may depend on all that is noted there.
  unfoldable pub request : {A : Type 0} → (S → Reply A) → (S → S) → M S A
  request reply note s = (outcome (reply (note s)), note s)

-- A computation keeps `I`, however it ends.
abbrev pub Keeps : {S A : Type 0} → (S → Type 0) → M S A → Type 0
Keeps I m = Triple I m (λ _. I) I

-- What the state satisfies is claimed of every outcome.
pub settled :
    {S : Type 0} (I : S → Type 0) {B : Type 0} (o : Outcome B) {t : S}
    → I t
    → Post (λ _. I) I (o, t)
settled I (value b) i = i
settled I (raised e) i = i
settled I running i = i

module _ {S A : Type 0} {P : S → Type 0} {Q : A → S → Type 0} {E : S → Type 0} where
  -- What was read is the state there.
  pub Triple-reads :
      {f : S → M S A} → ((s : S) → P s → Triple (λ t. t ≡ s) (f s) Q E) → Triple P (reads f) Q E
  unfolding reads
  Triple-reads h = record { holds = λ s p. (h s p).holds s refl }

module _ {S : Type 0} {P : S → Type 0} {Q : S → Type 0} {E : S → Type 0} where
  pub Triple-when :
      (b : Bool) {m : M S (Unit {0})}
      → (b ≡ true → Triple P m (λ _. Q) E)
      → ((s : S) → P s → Q s)
      → Triple P (when b m) (λ _. Q) E
  Triple-when true h skip = h refl
  Triple-when false h skip = Triple-pure skip

  pub Triple-modify : (f : S → S) → ((s : S) → P s → Q (f s)) → Triple P (modify f) (λ _. Q) E
  unfolding modify
  Triple-modify f h = record { holds = h }

module _ {S : Type 0} {P : S → Type 0} {Q : S → Type 0} where
  pub Triple-request :
      {A : Type 0} (reply : S → Reply A) (note : S → S)
      → ((s : S) → P s → Q (note s))
      → Triple P (request reply note) (λ _. Q) Q
  unfolding request
  Triple-request {A} reply note h = record { holds = λ s p. go (reply (note s)) (h s p) }
    where
      go : (r : Reply A) {t : S} → Q t → Post {S = S} (λ _. Q) Q (outcome r, t)
      go (answer a) q = q
      go (failure e) q = q

module _ {S A : Type 0} {P I : S → Type 0} {Q : A → S → Type 0} {E : S → Type 0} where
  -- The handler takes over with what holds when the call does not return.
  pub Triple-catch :
      {m : M S A} {handler : Exn → M S A}
      → Triple P m Q I
      → ((e : Exn) → Triple I (handler e) Q E)
      → ((s : S) → I s → E s)
      → Triple P (catch m handler) Q E
  Triple-catch {m} {handler} h k out = record { holds = λ s p. go (m s) (h.holds s p) }
    where
      go : (r : Outcome A × S) → Post Q I r → Post Q E (catch (λ (_ : S). r) handler r.1)
      go (value a, t) q = q
      go (raised e, t) q = (k e).holds t q
      go (running, t) q = out t q

module _ {S : Type 0} {I : S → Type 0} where
  pub Keeps-reads :
      {A : Type 0} {f : S → M S A} → ((s : S) → I s → Keeps I (f s)) → Keeps I (reads f)
  unfolding reads
  Keeps-reads h = record { holds = λ s p. (h s p).holds s p }

  pub Keeps-modify : (f : S → S) → ((s : S) → I s → I (f s)) → Keeps I (modify f)
  unfolding modify
  Keeps-modify f h = record { holds = h }

  pub Keeps-when : (b : Bool) {m : M S (Unit {0})} → (b ≡ true → Keeps I m) → Keeps I (when b m)
  Keeps-when true h = h refl
  Keeps-when false h = Triple-pure (λ s p. p)

  pub Keeps-request :
      {A : Type 0} (reply : S → Reply A) (note : S → S)
      → ((s : S) → I s → I (note s))
      → Keeps I (request reply note)
  Keeps-request reply note h = Triple-request reply note h

  pub Keeps-pure : {A : Type 0} {a : A} → Keeps I (pure a)
  Keeps-pure = Triple-pure (λ s p. p)

  pub Keeps-catch :
      {A : Type 0} {P : S → Type 0} {m : M S A} {handler : Exn → M S A}
      → Triple P m (λ _. I) I
      → ((e : Exn) → Keeps I (handler e))
      → Triple P (catch m handler) (λ _. I) I
  Keeps-catch h k = Triple-catch h k (λ s p. p)

  pub Keeps-finally :
      {A : Type 0} {m : M S A} {last : Option Exn → M S (Option Exn)}
      → Keeps I m
      → ((e : Option Exn) → Keeps I (last e))
      → Keeps I (finally_with m last)
  unfolding finally_with
  Keeps-finally {A} {m} {last} h k = record { holds = λ s p. go (m s) (h.holds s p) }
    where
      after : (e : Option Exn) (t : S) → I t → I (last e t).1
      after e t i = Post-same I (last e t) ((k e).holds t i)

      go :
          (r : Outcome A × S)
          → Post {S = S} (λ _. I) I r
          → Post {S = S} (λ _. I) I (finally_with (λ (_ : S). r) last r.1)
      go (value a, t) q = settled I (after_value a (last none t).0) (after none t q)
      go (raised e, t) q = settled I (after_raise e (last (some e) t).0) (after (some e) t q)
      go (running, t) q = q

  pub Keeps-catch_kind :
      {A : Type 0} (takes : Kind → Bool) {m : M S A} {handler : Exn → M S A}
      → Keeps I m
      → ((e : Exn) → Keeps I (handler e))
      → Keeps I (catch_kind takes m handler)
  Keeps-catch_kind takes h k =
      Keeps-catch h λ e. Triple-if (takes e.kind) (λ _. k e) (λ _. Triple-raise (λ s p. p))
