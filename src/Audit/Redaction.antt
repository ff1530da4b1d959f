-- ===== src/Audit/Redaction.antt =====
-- No sensitive field is left in the copy of a result.
use sams_simlplifynext.Prelude.{
  String, Bool, true, false, not, ◌&&◌, ◌≡◌, refl, inl, inr, Bool-cases, arith, if◌then◌else◌,
}
use sams_simlplifynext.Errors.{ok, bind-ok, ok-injective}
use sams_simlplifynext.Runtime.{Runtime}
use sams_simlplifynext.Value.{
  name, Value, Values, Fields, null, real, boolean, number, text, instant, items, mapping,
  instance_of, nil, cons, end, field, put,
}
use sams_simlplifynext.Plan.Canonical.{iso_second}
use sams_simlplifynext.Audit.Safe.{
  is_redacted, key_text, is_null, safe_any, safe_items, safe_fields, safe_value,
}

-- A value of JSON with no sensitive field at any depth.
unfoldable mutual
  pub is_clean : Runtime → Value → Bool
  is_clean rt null = true
  is_clean rt (real r) = false
  is_clean rt (boolean b) = true
  is_clean rt (number n) = true
  is_clean rt (text s) = true
  is_clean rt (instant t) = false
  is_clean rt (items vs) = is_clean_items rt vs
  is_clean rt (mapping m) = is_clean_fields rt m
  is_clean rt (instance_of c m) = false

  pub is_clean_items : Runtime → Values → Bool
  is_clean_items rt nil = true
  is_clean_items rt (cons v vs) = is_clean rt v && is_clean_items rt vs

  pub is_clean_fields : Runtime → Fields → Bool
  is_clean_fields rt end = true
  is_clean_fields rt (field k v m) =
      not (is_redacted rt (key_text rt k)) && (is_clean rt v && is_clean_fields rt m)

module _ (rt : Runtime) where
  put_clean :
      (k : String) (v : Value) (m : Fields)
      → is_redacted rt k ≡ false
      → is_clean rt v ≡ true
      → is_clean_fields rt m ≡ true
      → is_clean_fields rt (put (name k) v m) ≡ true
  unfolding put is_clean
  put_clean k v end h c a = ground arith
  put_clean k v (field j w m) h c a = ground (arith, put_clean k v m h c)

  store_clean :
      (k : String) (v : Value) (m : Fields)
      → is_redacted rt k ≡ false
      → is_clean rt v ≡ true
      → is_clean_fields rt m ≡ true
      → is_clean_fields rt (if is_null v then m else put (name k) v m) ≡ true
  store_clean k v m h c a = ground (arith, put_clean k v m h c a)

  mutual
    unfolding safe_any is_clean

    safe_any-clean : (v : Value) {v' : Value} → safe_any rt v ≡ ok v' → is_clean rt v' ≡ true
    safe_any-clean null h = rw (← ok-injective h) refl
    safe_any-clean (real r) h = rw (← ok-injective h) refl
    safe_any-clean (boolean b) h = rw (← ok-injective h) refl
    safe_any-clean (number n) h = rw (← ok-injective h) refl
    safe_any-clean (text s) h = rw (← ok-injective h) refl
    safe_any-clean (instant t) h =
        let (s, _, e) = bind-ok (iso_second rt t) _ h in rw (← ok-injective e) refl
    safe_any-clean (items vs) h =
        let (vs', found, e) = bind-ok (safe_items rt vs) _ h in
        rw (← ok-injective e) (safe_items-clean vs found)
    safe_any-clean (mapping m) h =
        let (m', found, e) = bind-ok (safe_fields rt m end) _ h in
        rw (← ok-injective e) (safe_fields-clean m end refl found)
    safe_any-clean (instance_of c m) h = rw (← ok-injective h) refl

    safe_items-clean :
        (vs : Values) {vs' : Values} → safe_items rt vs ≡ ok vs' → is_clean_items rt vs' ≡ true
    safe_items-clean nil h = rw (← ok-injective h) refl
    safe_items-clean (cons v vs) h =
        let (v', made, h') = bind-ok (safe_any rt v) _ h in
        let (vs', rest, e) = bind-ok (safe_items rt vs) _ h' in
        rw (← ok-injective e) (ground (arith, safe_any-clean v made, safe_items-clean vs rest))

    safe_fields-clean :
        (m acc : Fields) {m' : Fields}
        → is_clean_fields rt acc ≡ true
        → safe_fields rt m acc ≡ ok m'
        → is_clean_fields rt m' ≡ true
    safe_fields-clean end acc a h = rw (← ok-injective h) a
    safe_fields-clean (field k v m) acc a h = elim (Bool-cases (is_redacted rt (key_text rt k))) [
      | inl hidden ↦ safe_fields-clean m acc a (rw hidden at h)
      | inr shown ↦
          let (v', made, h') = bind-ok (safe_any rt v) _ (rw shown at h) in
          safe_fields-clean m _ (store_clean (key_text rt k) v' acc shown (safe_any-clean v made) a)
            h'
    ]

  -- What `_safe_value` returns has no sensitive field name at any depth, and no float, instant
  -- or class instance.
  pub safe_value-clean :
      (v : Value) (key : String) {v' : Value} → safe_value rt v key ≡ ok v' → is_clean rt v' ≡ true
  unfolding safe_value is_clean
  safe_value-clean v key h = elim (Bool-cases (is_redacted rt key)) [
    | inl hidden ↦ rw (← ok-injective (rw hidden at h)) refl
    | inr shown ↦ safe_any-clean v (rw shown at h)
  ]
