-- ===== src/Providers/Fixture/Cast.antt =====
-- The fields of a record that the provider in memory casts, and reading a record where they have
-- the types of the casts.
use sams_simlplifynext.Prelude.{String, Option, none, some, ◌≢◌, arith}
use sams_simlplifynext.Errors.{err, untyped, bind-ne}
use sams_simlplifynext.Runtime.{Runtime}
use sams_simlplifynext.Value.{Value, Fields, Datetime, text, boolean, get, find}
use sams_simlplifynext.Contracts.{Entitlement, make_entitlement, require_aware}
use sams_simlplifynext.Providers.Fixture.{
  text_field, choice_field, flag_field, mapping_field, read_scope, read_credential, parse_datetime,
  entitlement_of,
}

module _ (rt : Runtime) where
  -- The fields that the code casts have the type of the cast, where they are there.
  abbrev pub IsText : Option Value → Type 0
  IsText none = Unit
  IsText (some (text s)) = Unit
  IsText _ = ⊥

  abbrev pub IsFlag : Option Value → Type 0
  IsFlag none = Unit
  IsFlag (some (boolean b)) = Unit
  IsFlag _ = ⊥

  abbrev pub IsTyped : Fields → Type 0
  unfolding find
  IsTyped m =
      IsText (get "identity_id" m)
      × IsText (get "system" m)
      × IsText (get "resource" m)
      × IsFlag (get "revocable" m)

  text_field-ne : (v : Option Value) → IsText v → text_field v ≢ err untyped
  text_field-ne none t h = cc
  text_field-ne (some v) t h = ground arith

  flag_field-ne : (v : Option Value) → IsFlag v → flag_field v ≢ err untyped
  flag_field-ne none t h = cc
  flag_field-ne (some v) t h = ground arith

  choice_field-ne : (v : Option Value) → choice_field v ≢ err untyped
  choice_field-ne none h = cc
  choice_field-ne (some v) h = ground arith

  parse_datetime-ne :
      (v : Option Value)
      → ((t : String) → rt.from_iso t ≢ err untyped)
      → parse_datetime rt v ≢ err untyped
  unfolding parse_datetime
  parse_datetime-ne none iso h = cc
  parse_datetime-ne (some (text s)) iso h = ground (arith, iso s)
  parse_datetime-ne (some v) iso h = ground arith

  mapping_field-ne : (v : Option Value) → mapping_field v ≢ err untyped
  mapping_field-ne none h = cc
  mapping_field-ne (some v) h = ground arith

  read_scope-ne : (s : String) → read_scope s ≢ err untyped
  unfolding read_scope
  read_scope-ne s h = ground arith

  read_credential-ne : (s : String) → read_credential s ≢ err untyped
  unfolding read_credential
  read_credential-ne s h = ground arith

  require_aware-ne : (t : Option Datetime) → require_aware t ≢ err untyped
  unfolding require_aware
  require_aware-ne none h = cc
  require_aware-ne (some t) h = ground arith

  make_entitlement-ne : (e : Entitlement) → make_entitlement e ≢ err untyped
  unfolding make_entitlement
  make_entitlement-ne e =
      bind-ne (require_aware e.granted_at) _ (require_aware-ne e.granted_at) λ t.
        bind-ne (require_aware e.last_used_at) _ (require_aware-ne e.last_used_at)
          λ u h. ground arith

  pub entitlement_of-ne :
      (r : Fields)
      → IsTyped r
      → ((t : String) → rt.from_iso t ≢ err untyped)
      → entitlement_of rt r ≢ err untyped
  unfolding entitlement_of find
  entitlement_of-ne r (i, s, o, f) iso =
      bind-ne (mapping_field (get "raw" r)) _ (mapping_field-ne _) λ raw.
        bind-ne (text_field (get "identity_id" r)) _ (text_field-ne _ i) λ identity_id.
          bind-ne (text_field (get "system" r)) _ (text_field-ne _ s) λ system.
            bind-ne (text_field (get "resource" r)) _ (text_field-ne _ o) λ resource.
              bind-ne (choice_field (get "scope" r)) _ (choice_field-ne _) λ scope_text.
                bind-ne (read_scope scope_text) _ (read_scope-ne scope_text) λ scope.
                  bind-ne (parse_datetime rt (get "granted_at" r)) _ (parse_datetime-ne _ iso)
                    λ granted_at.
                      bind-ne (parse_datetime rt (get "last_used_at" r)) _ (parse_datetime-ne _ iso)
                        λ last_used_at.
                          bind-ne (choice_field (get "credential_type" r)) _ (choice_field-ne _)
                            λ credential_text.
                              bind-ne (read_credential credential_text) _
                                (read_credential-ne credential_text)
                                λ credential_type.
                                  bind-ne (flag_field (get "revocable" r)) _ (flag_field-ne _ f)
                                    λ revocable. make_entitlement-ne _
