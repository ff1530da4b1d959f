-- ===== src/Auth.antt =====
-- The check of a Cognito ID token (backend/src/deadbolt/auth.py). The environment, the key set with its
-- cache, and PyJWT are ports.
pub mod Verified
use sams_simlplifynext.Prelude.{
  ℕ, zero, suc, String, Bool, true, false, ◌||◌, ◌&&◌, not, Option, none, some, List, [], ◌∷◌,
  if◌then◌else◌,
}
use sams_simlplifynext.Prelude.Text.{str_eq, filled, text_in}
use sams_simlplifynext.Errors.{
  Exn, Result, ok, err, require, authentication_error, jwt_error, value_error, type_error,
  key_error,
}
use sams_simlplifynext.Exec.{Exec, pure, raise, lift, catch, ◌>>=◌, ◌>>◌}
use sams_simlplifynext.Runtime.{Runtime}
use sams_simlplifynext.Value.{
  Key, name, pair, Value, Values, Fields, text, items, mapping, nil, cons, end, field, find, get,
}
use sams_simlplifynext.Plan.Canonical.{◌⧺◌}

-- `os.environ.get(name, default)`, the cached read of a key set, `jwt.get_unverified_header`,
-- `RSAAlgorithm.from_jwk(json.dumps(key))`, and `jwt.decode` of a token with a key for RS256, an
-- issuer and an audience
pub record AuthPorts (D : Type 0) : Type 0 where
  pub environ : String → String → String
  pub jwks : String → Exec D Value
  pub unverified_header : String → Result Fields
  pub from_jwk : Fields → Result Value
  pub decode : String → Value → String → String → Result Fields

abbrev pub begins_with : String → String → Bool
begins_with String.[] s = true
begins_with (String.◌∷◌ c p) String.[] = false
begins_with (String.◌∷◌ c p) (String.◌∷◌ d s) =
    let rest = begins_with p s in
    if str_eq (String.◌∷◌ c String.[]) (String.◌∷◌ d String.[]) then rest else false

-- `text[n:]`
abbrev pub text_from : ℕ → String → String
text_from zero s = s
text_from (suc n) String.[] = String.[]
text_from (suc n) (String.◌∷◌ c s) = text_from n s

abbrev pub is_header : Runtime → Key → Value → Option String
is_header rt (name key) (text s) =
    if str_eq (rt.lower key) (rt.lower "authorization") then some s else none
is_header rt key v = none

-- The loop of `_header`
unfoldable pub header_in : Runtime → Fields → Option String
header_in rt end = none
header_in rt (field k v m) =
    let rest = header_in rt m in elim (is_header rt k v) [ none ↦ rest | some s ↦ some s ]

-- `_header(headers, "authorization")`
unfoldable pub header_of : Runtime → Option Value → Option String
unfolding header_in
header_of rt (some (mapping m)) = header_in rt m
header_of rt _ = none

abbrev pub has_kid : String → Fields → Bool
unfolding find
has_kid kid m = elim (get "kid" m) [ none ↦ false | some (text s) ↦ str_eq s kid | some v ↦ false ]

-- The first key of the set with the id of the token's header
unfoldable pub find_key : String → Values → Result Fields
unfolding find
find_key kid nil = err authentication_error
find_key kid (cons (mapping m) vs) =
    let rest = find_key kid vs in if has_kid kid m then ok m else rest
find_key kid (cons v vs) = find_key kid vs

abbrev pub kid_of : Fields → Result String
unfolding find
kid_of header = elim (get "kid" header) [
  | some (text s) ↦ ok s
  | some v ↦ err authentication_error
  | none ↦ err authentication_error
]

abbrev pub key_set : Value → Result Values
unfolding find
key_set (mapping m) = elim (get "keys" m) [
  | some (items vs) ↦ ok vs
  | some v ↦ err authentication_error
  | none ↦ err authentication_error
]
key_set v = err authentication_error

abbrev pub without_pairs : Fields → Fields
without_pairs end = end
without_pairs (field (name k) v m) = field (name k) v (without_pairs m)
without_pairs (field (pair a b) v m) = without_pairs m

-- The handler of `_claims`
abbrev pub on_decoding_error : Exn → Exn
on_decoding_error jwt_error = authentication_error
on_decoding_error type_error = authentication_error
on_decoding_error value_error = authentication_error
on_decoding_error key_error = authentication_error
on_decoding_error e = e

abbrev pub is_id_use : Option Value → Bool
is_id_use (some (text s)) = str_eq s "id"
is_id_use _ = false

abbrev pub subject_of : Option Value → Option String
subject_of (some (text s)) = some s
subject_of _ = none

module _ {D : Type 0} (rt : Runtime) (ports : AuthPorts D) where
  unfoldable pub authentication_required : Bool
  unfolding text_in
  authentication_required =
      text_in (rt.lower (ports.environ "DEADBOLT_AUTH_REQUIRED" "0")) ("1" ∷ "true" ∷ "yes" ∷ [])

  -- `_configuration`: the issuer, the client id and the address of the key set
  unfoldable pub configuration : Result (String × String × String)
  configuration =
      let region = ports.environ "COGNITO_REGION" "" in
      let pool_id = ports.environ "COGNITO_USER_POOL_ID" "" in
      let client_id = ports.environ "COGNITO_CLIENT_ID" "" in
      let issuer = "https://cognito-idp." ⧺ (region ⧺ (".amazonaws.com/" ⧺ pool_id)) in
      if filled region && (filled pool_id && filled client_id)
      then ok (issuer, client_id, issuer ⧺ "/.well-known/jwks.json")
      else err authentication_error

  -- The body of the `try` of `_claims`
  unfoldable pub decode_token : String → String → String → String → Exec D Fields
  unfolding find_key
  decode_token token issuer client_id jwks_url = do
    header ← lift (ports.unverified_header token)
    kid ← lift (kid_of header)
    found ← ports.jwks jwks_url
    keys ← lift (key_set found)
    key ← lift (find_key kid keys)
    public_key ← lift (ports.from_jwk key)
    lift (ports.decode token public_key issuer client_id)

  -- `_claims`
  unfoldable pub claims_of : String → Exec D Fields
  unfolding configuration decode_token find
  claims_of token = do
    settings ← lift configuration
    claims ←
        catch (decode_token token settings.0 settings.1 settings.2)
          (λ e. raise (on_decoding_error e))
    lift (require (is_id_use (get "token_use" claims)) authentication_error)
    pure (without_pairs claims)

  abbrev pub bearer_token : Option String → Result String
  bearer_token none = err authentication_error
  bearer_token (some token) =
      let raw_token = rt.strip (text_from 7 token) in
      if begins_with "bearer " (rt.lower token) && filled raw_token
      then ok raw_token
      else err authentication_error

  abbrev pub event_fields : Value → Result Fields
  event_fields (mapping m) = ok m
  event_fields v = err authentication_error

  unfoldable pub authorize_required : Value → Exec D (Option String)
  unfolding claims_of header_of find
  authorize_required event = do
    given ← lift (event_fields event)
    raw_token ← lift (bearer_token (header_of rt (get "headers" given)))
    claims ← claims_of raw_token
    pure (subject_of (get "sub" claims))

  unfoldable pub authorize_event : Value → Exec D (Option String)
  unfolding authentication_required authorize_required
  authorize_event event = if authentication_required then authorize_required event else pure none
