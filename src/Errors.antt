-- ===== src/Errors.antt =====
-- The exceptions that the code raises or meets: errors.py, and those of Python and of the AWS
-- client (backend/src/deadbolt/errors.py). A call that may raise returns a `Result`.
use sams_simlplifynext.Prelude.{
  String, ◌≡◌, ◌≢◌, refl, Bool, true, false, ◌⊎◌, inl, inr, List, [], ◌∷◌, All,
}

pub data Exn : Type 0 where
  provider_error irreversible policy_violation idempotency_conflict : Exn
  audit_configuration audit_chain authentication_error : Exn
  value_error type_error key_error attribute_error runtime_error : Exn
  -- PyJWT's PyJWTError
  jwt_error : Exn
  -- botocore's ClientError, with the code of its response
  client_error : String → Exn
  -- no exception: the fuel of a `while` loop ran out
  unfinished : Exn
  -- no exception: a value has another type than a `cast` of the code says, and what the code does
  -- with it is not followed
  untyped : Exn

-- The value that a call returns, or the exception that it raises.
pub data Result {ℓ} (A : Type ℓ) : Type ℓ where
  ok : A → Result A
  err : Exn → Result A

-- `if not test: raise e`
abbrev pub require : Bool → Exn → Result (Unit {0})
require false raised = err raised
require true raised = ok tt

abbrev pub is_ok {ℓ} : {A : Type ℓ} → Result A → Bool
is_ok (ok a) = true
is_ok (err e) = false

infixl 5 ◌>>=◌ ◌>>◌
-- The rest of a function, after a call that may raise.
abbrev pub ◌>>=◌ {ℓ κ} :
    {A : Type ℓ} {B : Type κ} (call : Result A) (rest : A → Result B) → Result B
◌>>=◌ (err raised) rest = err raised
◌>>=◌ (ok value) rest = rest value

pub Result-cases {ℓ} :
    {A : Type ℓ} (r : Result A) → ((a : A) × (r ≡ ok a)) ⊎ ((e : Exn) × (r ≡ err e))
Result-cases (ok a) = inl (a, refl)
Result-cases (err e) = inr (e, refl)

-- The rest, where the call is made for its exception alone.
abbrev pub ◌>>◌ {ℓ} : {B : Type ℓ} → Result (Unit {0}) → Result B → Result B
test >> rest = test >>= λ passed. rest

pub ok-of_is_ok {ℓ} : {A : Type ℓ} (r : Result A) → is_ok r ≡ true → (a : A) × (r ≡ ok a)
ok-of_is_ok (ok a) h = (a, refl)
ok-of_is_ok (err e) h = cc

-- A sequence that returns: what its two parts returned.
pub bind-ok {ℓ κ} :
    {A : Type ℓ} {B : Type κ} (call : Result A) (rest : A → Result B) {b : B}
    → ◌>>=◌ call rest ≡ ok b
    → (a : A) × (call ≡ ok a) × (rest a ≡ ok b)
bind-ok (err raised) rest h = cc
bind-ok (ok value) rest h = (value, refl, h)

pub err-injective {ℓ} : {A : Type ℓ} {e e' : Exn} → ◌≡◌ {A = Result A} (err e) (err e') → e ≡ e'
err-injective h = cc

-- A sequence raises what one of its two parts raises.
pub bind-ne {ℓ κ} :
    {A : Type ℓ} {B : Type κ} (call : Result A) (rest : A → Result B) {e : Exn}
    → call ≢ err e
    → ((a : A) → rest a ≢ err e)
    → call >>= rest ≢ err e
bind-ne (err raised) rest c r h = c (rw (err-injective h) refl)
bind-ne (ok value) rest c r h = r value h

pub ok-injective {ℓ} : {A : Type ℓ} {a b : A} → ok a ≡ ok b → a ≡ b
ok-injective h = cc

-- `[f(x) for x in xs]`, where a raise ends the loop.
unfoldable pub traverse {ℓ κ} :
    {A : Type ℓ} {B : Type κ} → (A → Result B) → List A → Result (List B)
traverse f [] = ok []
traverse f (x ∷ xs) = do y ← f x; ys ← traverse f xs; ok (y ∷ ys)

module _ {ℓ κ λ'} {A : Type ℓ} {B : Type κ} (f : A → Result B) (P : B → Type λ')
    (each : (a : A) (b : B) → f a ≡ ok b → P b) where
  -- What each result has, all members of the list have.
  pub traverse-All : (xs : List A) {ys : List B} → traverse f xs ≡ ok ys → All P ys
  unfolding traverse
  traverse-All [] h = rw (← ok-injective h) tt
  traverse-All (x ∷ xs) h =
      let (y, made, h') = bind-ok (f x) _ h in
      let (ys, rest, h'') = bind-ok (traverse f xs) _ h' in
      rw (← ok-injective h'') (each x y made, traverse-All xs rest)

module _ {ℓ κ} {A : Type ℓ} {B : Type κ} (f : A → Result B) where
  pub traverse_total :
      (xs : List A) → All (λ x. is_ok (f x) ≡ true) xs → is_ok (traverse f xs) ≡ true
  unfolding traverse
  traverse_total [] h = refl
  traverse_total (x ∷ xs) h =
      let (y, made) = ok-of_is_ok (f x) h.0 in
      let (ys, rest) = ok-of_is_ok (traverse f xs) (traverse_total xs h.1) in rw (made, rest)
