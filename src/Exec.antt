-- ===== src/Exec.antt =====
-- Methods that act on the outside world and may raise: state passing with a result. What was done
-- before a raise stays done, so the state comes back beside the exception too.
use sams_simlplifynext.Prelude.{arith, ◌≡◌, ◌⊎◌, inl, inr, refl, ap}
use mathlib.Core.Path.{subst}
use sams_simlplifynext.Errors.{Exn, Result, ok, err, ok-injective}

abbrev pub Exec : Type 0 → Type 0 → Type 0
Exec S A = S → Result A × S

module _ {S A : Type 0} where
  abbrev pub pure : A → Exec S A
  pure a s = (ok a, s)

  abbrev pub raise : Exn → Exec S A
  raise e s = (err e, s)

  abbrev pub lift : Result A → Exec S A
  lift r s = (r, s)

  abbrev pub gets : (S → A) → Exec S A
  gets f s = (ok (f s), s)

  -- `try: m  except Exception as e: handler(e)`, in the state that the raise left
  abbrev pub catch : Exec S A → (Exn → Exec S A) → Exec S A
  catch m handler s = let (r, s') = m s in elim r [ ok a ↦ (ok a, s') | err e ↦ handler e s' ]

abbrev pub continue_with : {S A B : Type 0} → Result A → (A → Exec S B) → Exec S B
continue_with (ok a) f s = f a s
continue_with (err e) f s = (err e, s)

infixl 5 ◌>>=◌ ◌>>◌
abbrev pub ◌>>=◌ : {S A B : Type 0} → Exec S A → (A → Exec S B) → Exec S B
◌>>=◌ m f s = let (r, s') = m s in continue_with r f s'

abbrev pub ◌>>◌ : {S A B : Type 0} → Exec S A → Exec S B → Exec S B
m >> k = m >>= λ _. k

abbrev pub modify : {S : Type 0} → (S → S) → Exec S (Unit {0})
modify f s = (ok tt, f s)

-- What holds of the result and the state if the call returns.
abbrev pub Returns : {S A : Type 0} → (A → S → Type 0) → Result A × S → Type 0
Returns Q (ok a, s) = Q a s
Returns Q (err e, s) = Unit

-- The rule for a sequence: the rest may use that the first part returned.
Returns-continue :
    {S A B : Type 0} (Q : B → S → Type 0) (r : Result A) (s : S) (f : A → Exec S B)
    → ((a : A) → r ≡ ok a → Returns Q (f a s))
    → Returns Q (continue_with r f s)
Returns-continue Q (ok a) s f h = h a refl
Returns-continue Q (err e) s f h = tt

pub Returns-bind :
    {S A B : Type 0} (Q : B → S → Type 0) (m : Exec S A) (f : A → Exec S B) (s : S)
    → ((a : A) → (m s).0 ≡ ok a → Returns Q (f a (m s).1))
    → Returns Q ((m >>= f) s)
Returns-bind Q m f s h = Returns-continue Q (m s).0 (m s).1 f h

-- What holds of the state that a call leaves, also if it raises.
abbrev pub Always : {S A : Type 0} → (S → Type 0) → Result A × S → Type 0
Always Q x = Q x.1

Always-continue :
    {S A B : Type 0} (Q : S → Type 0) (r : Result A) (s : S) (f : A → Exec S B)
    → Q s
    → ((a : A) → r ≡ ok a → Q (f a s).1)
    → Q (continue_with r f s).1
Always-continue Q (ok a) s f q h = h a refl
Always-continue Q (err e) s f q h = q

pub Always-bind :
    {S A B : Type 0} (Q : S → Type 0) (m : Exec S A) (f : A → Exec S B) (s : S)
    → Q (m s).1
    → ((a : A) → (m s).0 ≡ ok a → Q (f a (m s).1).1)
    → Q ((m >>= f) s).1
Always-bind Q m f s q h = Always-continue Q (m s).0 (m s).1 f q h

Always-handled :
    {S A : Type 0} (Q : S → Type 0) (r : Result A) (s : S) (handler : Exn → Exec S A)
    → Q s
    → ((e : Exn) → r ≡ err e → Q (handler e s).1)
    → Q (catch (λ s. (r, s)) handler s).1
Always-handled Q (ok a) s handler q h = q
Always-handled Q (err e) s handler q h = h e refl

pub Always-catch :
    {S A : Type 0} (Q : S → Type 0) (m : Exec S A) (handler : Exn → Exec S A) (s : S)
    → Q (m s).1
    → ((e : Exn) → (m s).0 ≡ err e → Q (handler e (m s).1).1)
    → Q (catch m handler s).1
Always-catch Q m handler s q h = Always-handled Q (m s).0 (m s).1 handler q h

Returns-handled :
    {S A : Type 0} (Q : A → S → Type 0) (r : Result A) (s : S) (handler : Exn → Exec S A)
    → Returns Q (r, s)
    → ((e : Exn) → r ≡ err e → Returns Q (handler e s))
    → Returns Q (catch (λ s. (r, s)) handler s)
Returns-handled Q (ok a) s handler q h = q
Returns-handled Q (err e) s handler q h = h e refl

pub Returns-catch :
    {S A : Type 0} (Q : A → S → Type 0) (m : Exec S A) (handler : Exn → Exec S A) (s : S)
    → Returns Q (m s)
    → ((e : Exn) → (m s).0 ≡ err e → Returns Q (handler e (m s).1))
    → Returns Q (catch m handler s)
Returns-catch Q m handler s q h = Returns-handled Q (m s).0 (m s).1 handler q h

Returns-result :
    {S A : Type 0} (Q : A → S → Type 0) (r : Result A) (s : S) {a : A}
    → Returns Q (r, s)
    → r ≡ ok a
    → Q a s
Returns-result Q (ok b) s q e = subst (λ x. Q x s) (ok-injective e) q
Returns-result Q (err x) s q e = cc

-- What is known if a call returns, at a call that returned.
pub Returns-ok :
    {S A : Type 0} (Q : A → S → Type 0) (x : Result A × S) {a : A}
    → Returns Q x
    → x.0 ≡ ok a
    → Q a x.1
Returns-ok Q x q e = Returns-result Q x.0 x.1 q e

-- A weaker statement of the same call.
pub Returns-map :
    {S A : Type 0} (Q Q' : A → S → Type 0) (x : Result A × S)
    → ((a : A) (s : S) → Q a s → Q' a s)
    → Returns Q x
    → Returns Q' x
Returns-map Q Q' (ok a, s) h q = h a s q
Returns-map Q Q' (err e, s) h q = tt

-- What is known if a call returns, with what it returned.
pub Returns-same :
    {S A : Type 0} (Q : A → S → Type 0) (x : Result A × S)
    → Returns Q x
    → Returns (λ a s. (x ≡ (ok a, s)) × Q a s) x
Returns-same Q (ok a, s) q = (refl, q)
Returns-same Q (err e, s) q = tt

continue_with-ok :
    {S A B : Type 0} (r : Result A) (s : S) (f : A → Exec S B) {b : B} {s' : S}
    → continue_with r f s ≡ (ok b, s')
    → (a : A) × (r ≡ ok a) × (f a s ≡ (ok b, s'))
continue_with-ok (ok a) s f h = (a, refl, h)
continue_with-ok (err e) s f h = absurd (ground arith)

-- A sequence that returns: what its two parts returned, and in which state.
pub bind-ok :
    {S A B : Type 0} (m : Exec S A) (f : A → Exec S B) (s : S) {b : B} {s' : S}
    → (m >>= f) s ≡ (ok b, s')
    → (a : A) × (t : S) × (m s ≡ (ok a, t)) × (f a t ≡ (ok b, s'))
bind-ok m f s h =
    let (a, e, rest) = continue_with-ok (m s).0 (m s).1 f h in
    (a, (m s).1, (λ i. (e i, (m s).1)), rest)

module _ {S A B : Type 0} (m : Exec S A) (f : A → Exec S B) (s : S) where
  -- A sequence, from what its first call does.
  pub bind-eq_ok : {a : A} {t : S} → m s ≡ (ok a, t) → (m >>= f) s ≡ f a t
  bind-eq_ok h = ap (λ x. continue_with x.0 f x.1) h

  pub bind-eq_err : {e : Exn} {t : S} → m s ≡ (err e, t) → (m >>= f) s ≡ (err e, t)
  bind-eq_err h = ap (λ x. continue_with x.0 f x.1) h

module _ {S A : Type 0} (m : Exec S A) (handler : Exn → Exec S A) (s : S) where
  pub catch-eq_ok : {a : A} {t : S} → m s ≡ (ok a, t) → catch m handler s ≡ (ok a, t)
  catch-eq_ok h = ap (λ x. catch (λ s. x) handler s) h

  pub catch-eq_err : {e : Exn} {t : S} → m s ≡ (err e, t) → catch m handler s ≡ handler e t
  catch-eq_err h = ap (λ x. catch (λ s. x) handler s) h

handled-ok :
    {S A : Type 0} (r : Result A) (s : S) (handler : Exn → Exec S A) {a : A} {s' : S}
    → catch (λ _. (r, s)) handler s ≡ (ok a, s')
    → (◌≡◌ {A = Result A × S} (r, s) (ok a, s'))
      ⊎ ((e : Exn) × (r ≡ err e) × (handler e s ≡ (ok a, s')))
handled-ok (ok a) s handler h = inl h
handled-ok (err e) s handler h = inr (e, refl, h)

-- A call under a handler that returns: from the call itself, or from the handler.
pub catch-ok :
    {S A : Type 0} (m : Exec S A) (handler : Exn → Exec S A) (s : S) {a : A} {s' : S}
    → catch m handler s ≡ (ok a, s')
    → (m s ≡ (ok a, s')) ⊎ ((e : Exn) × ((m s).0 ≡ err e) × (handler e (m s).1 ≡ (ok a, s')))
catch-ok m handler s h = handled-ok (m s).0 (m s).1 handler h
