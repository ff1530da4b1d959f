-- ===== src/Auth/Verified.antt =====
-- A request that is let through (backend/src/deadbolt/auth.py).
use sams_simlplifynext.Prelude.{
  String, Bool, true, false, Option, ◌≡◌, refl, sym, ap, ◌∙◌, inl, inr, Bool-cases, arith,
}
use mathlib.Core.Path.{subst}
use sams_simlplifynext.Errors.{Exn, Result, ok, require, authentication_error, ok-injective}
use sams_simlplifynext.Exec.{raise, lift, catch, bind-ok, catch-ok}
use sams_simlplifynext.Runtime.{Runtime}
use sams_simlplifynext.Value.{
  Value, Values, Fields, null, real, boolean, number, instant, instance_of, text, items, mapping,
  nil, cons, get,
}
use sams_simlplifynext.Auth.{
  AuthPorts, header_of, has_kid, find_key, kid_of, key_set, without_pairs, on_decoding_error,
  is_id_use, subject_of, authentication_required, configuration, decode_token, claims_of,
  bearer_token, event_fields, authorize_required, authorize_event,
}

lift-ok : {S A : Type 0} (r : Result A) (s : S) {a : A} {t : S} → lift r s ≡ (ok a, t) → r ≡ ok a
lift-ok r s h = ap (λ x. x.0) h

find_key-has_kid :
    (kid : String) (vs : Values) {m : Fields} → find_key kid vs ≡ ok m → has_kid kid m ≡ true
unfolding find_key
find_key-has_kid kid nil h = cc
find_key-has_kid kid (cons (mapping k) vs) h = elim (Bool-cases (has_kid kid k)) [
  | inl e ↦
      let same : ◌≡◌ {A = Result Fields} (ok k) _ = rw e at h in
      subst (λ m. has_kid kid m ≡ true) (ok-injective same) e
  | inr e ↦ let later : find_key kid vs ≡ _ = rw e at h in find_key-has_kid kid vs later
]
find_key-has_kid kid (cons null vs) h = find_key-has_kid kid vs h
find_key-has_kid kid (cons (real r) vs) h = find_key-has_kid kid vs h
find_key-has_kid kid (cons (boolean b) vs) h = find_key-has_kid kid vs h
find_key-has_kid kid (cons (number n) vs) h = find_key-has_kid kid vs h
find_key-has_kid kid (cons (text s) vs) h = find_key-has_kid kid vs h
find_key-has_kid kid (cons (instant t) vs) h = find_key-has_kid kid vs h
find_key-has_kid kid (cons (items us) vs) h = find_key-has_kid kid vs h
find_key-has_kid kid (cons (instance_of c k) vs) h = find_key-has_kid kid vs h

module _ {D : Type 0} (rt : Runtime) (ports : AuthPorts D) where
  -- A token that the key of its header verifies for the configured issuer and client, and the claims
  abbrev pub IsVerified : String → Fields → Type 0
  IsVerified token claims =
      (issuer client_id jwks_url kid : String) × (header key : Fields) × (keys : Values) × (found
        public_key : Value)
      × (d : D) × (configuration rt ports ≡ ok (issuer, client_id, jwks_url))
      × (ports.unverified_header token ≡ ok header)
      × (kid_of header ≡ ok kid)
      × ((ports.jwks jwks_url d).0 ≡ ok found)
      × (key_set found ≡ ok keys)
      × (find_key kid keys ≡ ok key)
      × (has_kid kid key ≡ true)
      × (ports.from_jwk key ≡ ok public_key)
      × (ports.decode token public_key issuer client_id ≡ ok claims)

  -- The event has a bearer token that is verified as an ID token of the subject.
  abbrev pub IsAuthorized : Value → Option String → Type 0
  IsAuthorized event subject =
      (given claims : Fields) × (token : String) × (event ≡ mapping given)
      × (bearer_token rt ports (header_of rt (get "headers" given)) ≡ ok token)
      × IsVerified token claims
      × (is_id_use (get "token_use" claims) ≡ true)
      × (subject ≡ subject_of (get "sub" (without_pairs claims)))

  decode_token-IsVerified :
      (token issuer client_id jwks_url : String) (claims : Fields) (d d' : D)
      → configuration rt ports ≡ ok (issuer, client_id, jwks_url)
      → decode_token rt ports token issuer client_id jwks_url d ≡ (ok claims, d')
      → IsVerified token claims
  unfolding decode_token
  decode_token-IsVerified token issuer client_id jwks_url claims d d' c h =
      let (header, d1, e1, h1) = bind-ok (lift (ports.unverified_header token)) _ d h in
      let (kid, d2, e2, h2) = bind-ok (lift (kid_of header)) _ d1 h1 in
      let (found, d3, e3, h3) = bind-ok (ports.jwks jwks_url) _ d2 h2 in
      let (keys, d4, e4, h4) = bind-ok (lift (key_set found)) _ d3 h3 in
      let (key, d5, e5, h5) = bind-ok (lift (find_key kid keys)) _ d4 h4 in
      let (public_key, d6, e6, h6) = bind-ok (lift (ports.from_jwk key)) _ d5 h5 in
      let chosen = lift-ok (find_key kid keys) d4 e5 in
      (
        issuer,
        client_id,
        jwks_url,
        kid,
        header,
        key,
        keys,
        found,
        public_key,
        d2,
        c,
        lift-ok (ports.unverified_header token) d e1,
        lift-ok (kid_of header) d1 e2,
        ap (λ x. x.0) e3,
        lift-ok (key_set found) d3 e4,
        chosen,
        find_key-has_kid kid keys chosen,
        lift-ok (ports.from_jwk key) d5 e6,
        lift-ok (ports.decode token public_key issuer client_id) d6 h6,
      )

  required-true : (b : Bool) (e : Exn) {u : Unit {0}} → require b e ≡ ok u → b ≡ true
  required-true true e h = refl
  required-true false e h = cc

  claims_of-IsVerified :
      (token : String) (kept : Fields) (d d' : D)
      → claims_of rt ports token d ≡ (ok kept, d')
      → (claims : Fields) × IsVerified token claims
        × (is_id_use (get "token_use" claims) ≡ true)
        × (kept ≡ without_pairs claims)
  unfolding claims_of
  claims_of-IsVerified token kept d d' h =
      let (settings, d1, e1, h1) = bind-ok (lift (configuration rt ports)) _ d h in
      let decoding = decode_token rt ports token settings.0 settings.1 settings.2 in
      let (claims, d2, e2, h2) =
        bind-ok (catch decoding (λ e. raise (on_decoding_error e))) _ d1 h1 in
      let token_use = is_id_use (get "token_use" claims) in
      let (_, d3, e3, h3) = bind-ok (lift (require token_use authentication_error)) _ d2 h2 in
      elim (catch-ok decoding (λ e. raise (on_decoding_error e)) d1 e2) [
        | inl decoded ↦ (
          claims,
          decode_token-IsVerified token settings.0 settings.1 settings.2 claims d1 d2
              (lift-ok (configuration rt ports) d e1) decoded,
          required-true token_use authentication_error
              (lift-ok (require token_use authentication_error) d2 e3),
          sym (ok-injective (ap (λ x. x.0) h3)),
        )
        | inr (e, _, raised) ↦ absurd (ground arith)
      ]

  event_fields-mapping :
      (event : Value) {m : Fields} → event_fields rt ports event ≡ ok m → event ≡ mapping m
  event_fields-mapping (mapping m) h = ap mapping (ok-injective h)
  event_fields-mapping null h = cc
  event_fields-mapping (real r) h = cc
  event_fields-mapping (boolean b) h = cc
  event_fields-mapping (number n) h = cc
  event_fields-mapping (text s) h = cc
  event_fields-mapping (instant t) h = cc
  event_fields-mapping (items us) h = cc
  event_fields-mapping (instance_of c k) h = cc

  authorize_required-IsAuthorized :
      (event : Value) (subject : Option String) (d d' : D)
      → authorize_required rt ports event d ≡ (ok subject, d')
      → IsAuthorized event subject
  unfolding authorize_required
  authorize_required-IsAuthorized event subject d d' h =
      let (given, d1, e1, h1) = bind-ok (lift (event_fields rt ports event)) _ d h in
      let header = header_of rt (get "headers" given) in
      let (token, d2, e2, h2) = bind-ok (lift (bearer_token rt ports header)) _ d1 h1 in
      let (kept, d3, e3, h3) = bind-ok (claims_of rt ports token) _ d2 h2 in
      let (claims, verified, is_id, same) = claims_of-IsVerified token kept d2 d3 e3 in
      (
        given,
        claims,
        token,
        event_fields-mapping event (lift-ok (event_fields rt ports event) d e1),
        lift-ok (bearer_token rt ports header) d1 e2,
        verified,
        is_id,
        sym (ok-injective (ap (λ x. x.0) h3)) ∙ ap (λ m. subject_of (get "sub" m)) same,
      )

  -- If authentication is required and `authorize_event` returns, then the event is a mapping
  -- with a bearer token in its authorization header; the key set of the configured pool has a
  -- key with the key id of the token's header; the token decodes with this key for the
  -- configured issuer and client; its claims say that it is an ID token; and what is returned is
  -- the subject of the claims, if that is a text, and none otherwise.
  pub authorize_event-IsAuthorized :
      (event : Value) (subject : Option String) (d d' : D)
      → authentication_required rt ports ≡ true
      → authorize_event rt ports event d ≡ (ok subject, d')
      → IsAuthorized event subject
  unfolding authorize_event
  authorize_event-IsAuthorized event subject d d' r h =
      authorize_required-IsAuthorized event subject d d' (rw r at h)
