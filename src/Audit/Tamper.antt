-- ===== src/Audit/Tamper.antt =====
-- What the last hash of a chain fixes.
use sams_simlplifynext.Prelude.{
  String, true, List, [], ◌∷◌, All, length, ◌≡◌, sym, ◌∙◌, ap, some, none, and-true, Option, arith,
}
use sams_simlplifynext.Prelude.Text.{eq_iff}
use sams_simlplifynext.Errors.{ok, ok-injective}
use sams_simlplifynext.Prelude.Int.{ℤ}
use sams_simlplifynext.Runtime.{Runtime}
use sams_simlplifynext.Value.{Value, Fields, text, mapping, find, name, get}
use sams_simlplifynext.Audit.Chain.{
  AuditRecord, is_next, seq_key, verify_from, verify_records, head_hash, is_text,
}

-- The record is what the text of the object reads as.
abbrev pub IsParsed : Runtime → AuditRecord → Type 0
IsParsed rt r = rt.json_loads r.raw ≡ ok (mapping r.fields)

-- No two texts at the same place of the two chains have the same hash and are different.
abbrev pub NoCollision : Runtime → List AuditRecord → List AuditRecord → Type 0
NoCollision rt (x ∷ l) (y ∷ m) =
    (rt.sha256 x.raw ≡ rt.sha256 y.raw → x.raw ≡ y.raw) × NoCollision rt l m
NoCollision rt _ _ = Unit

-- The two chains have the same texts and the same records, one by one.
abbrev pub AreSame : List AuditRecord → List AuditRecord → Type 0
AreSame [] [] = Unit
AreSame (x ∷ l) (y ∷ m) = (x.raw ≡ y.raw) × (x.fields ≡ y.fields) × AreSame l m
AreSame _ _ = ⊥

is_text-eq : (p : String) (o : Option Value) → is_text p o ≡ true → o ≡ some (text p)
is_text-eq p (some (text s)) h = rw ((eq_iff s p).0 h)
is_text-eq p (some v) h = cc
is_text-eq p none h = cc

is_next-prev_hash :
    (rt : Runtime) (p : String) (seen : List ℤ) (r : AuditRecord)
    → is_next rt p seen r ≡ true
    → find (name "prev_hash") r.fields ≡ some (text p)
unfolding is_next find
is_next-prev_hash rt p seen r h =
    let (_, rest) = and-true _ _ h in
    let (_, rest') = and-true _ _ rest in
    is_text-eq p (get "prev_hash" r.fields) (and-true _ _ rest').0

text-injective : (a b : String) → ◌≡◌ {A = Option Value} (some (text a)) (some (text b)) → a ≡ b
text-injective a b h = cc

mapping-injective : (m n : Fields) → ◌≡◌ {A = Value} (mapping m) (mapping n) → m ≡ n
mapping-injective m n h = cc

module _ (rt : Runtime) where
  same_chain :
      (p q : String) (s t : List ℤ) (l m : List AuditRecord)
      → verify_from rt p s l ≡ true
      → verify_from rt q t m ≡ true
      → length l ≡ length m
      → head_hash rt p l ≡ head_hash rt q m
      → NoCollision rt l m
      → All (IsParsed rt) l
      → All (IsParsed rt) m
      → (p ≡ q) × AreSame l m
  unfolding verify_from head_hash
  same_chain p q s t [] [] v w n h c a b = (h, tt)
  same_chain p q s t [] (y ∷ m) v w n h c a b = absurd (omega arith)
  same_chain p q s t (x ∷ l) [] v w n h c a b = absurd (omega arith)
  same_chain p q s t (x ∷ l) (y ∷ m) v w n h c a b =
      let (hash, same) =
        same_chain (rt.sha256 x.raw) (rt.sha256 y.raw) (seq_key x ∷ s) (seq_key y ∷ t) l m
          (and-true _ _ v).1 (and-true _ _ w).1 (omega arith) h c.1 a.1 b.1 in
      let raw : x.raw ≡ y.raw = c.0 hash in
      let fields : x.fields ≡ y.fields =
        mapping-injective _ _ (ok-injective (sym a.0 ∙ ap rt.json_loads raw ∙ b.0)) in
      (
        text-injective p q (
            sym (is_next-prev_hash rt p s x (and-true _ _ v).0)
            ∙ ap (find (name "prev_hash")) fields
            ∙ is_next-prev_hash rt q t y (and-true _ _ w).0),
        (raw, fields, same),
      )

  -- Two lists of records that both verify, have the same length and the same last hash, and are
  -- what their texts read as, have the same texts and records throughout, if no two different
  -- texts at the same place of them have the same hash.
  pub verify_records-AreSame :
      (l m : List AuditRecord)
      → verify_records rt l ≡ true
      → verify_records rt m ≡ true
      → length l ≡ length m
      → head_hash rt "" l ≡ head_hash rt "" m
      → NoCollision rt l m
      → All (IsParsed rt) l
      → All (IsParsed rt) m
      → AreSame l m
  unfolding verify_records
  verify_records-AreSame l m v w n h c a b = (same_chain "" "" [] [] l m v w n h c a b).1
