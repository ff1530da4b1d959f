-- ===== src/Audit/Writer/Extension.antt =====
-- What a write adds to the chain of its plan.
use sams_simlplifynext.Prelude.{
  String, Bool, true, false, Option, none, some, is_some, List, [], ◌∷◌, ◌++◌, All, All-map,
  All-zip, all, or_else, ◌≡◌, refl, sym, ap, ◌∙◌, arith, if◌then◌else◌,
}
use sams_simlplifynext.Prelude.Int.{ℤ, pos, negsuc, leb_ℤ, ◌+ℤ◌, +ℤ_parts}
use sams_simlplifynext.Prelude.Order.{sorted}
use sams_simlplifynext.Errors.{Exn, audit_chain, Result, ok, ok-injective}
use sams_simlplifynext.Errors
use sams_simlplifynext.Exec.{pure, raise, lift, ◌>>=◌, bind-ok, bind-eq_ok, catch-eq_ok}
use sams_simlplifynext.Runtime.{Runtime}
use sams_simlplifynext.Services.{ObjectStore}
use sams_simlplifynext.Value.{Datetime, Fields, name, text, number, mapping, find, get}
use sams_simlplifynext.Plan.Canonical.{canonical_dumps}
use sams_simlplifynext.Audit.Safe.{safe_value}
use sams_simlplifynext.Audit.Chain.{
  AuditRecord, required_fields, seq_of, record_le, verify_records, head_hash,
}
use sams_simlplifynext.Audit.Chain.Append.{
  IsBelow, HasSeq, IsStored, listed-HasSeq, verify_records-add,
}
use sams_simlplifynext.Audit.Writer.{
  AuditWriter, plan_id_of, normalize, timestamp_of, reported_result, larger, larger_of, max_seq,
  records, found_records, extend_from, previous_hash, next_seq, object_lock, write, verify_found,
  verify_chain, broken,
}

-- The largest number of a listing is not below that of any record in it.
abbrev IsCounted : Option ℤ → AuditRecord → Type 0
unfolding find
IsCounted top r = (k : ℤ) → seq_of r.fields ≡ some k → (t : ℤ) × (top ≡ some t) × (leb_ℤ k t ≡ true)

larger_of-own :
    (o top : Option ℤ) (k : ℤ)
    → o ≡ some k
    → (t : ℤ) × (larger_of o top ≡ some t) × (leb_ℤ k t ≡ true)
larger_of-own none top k h = absurd (ground arith)
larger_of-own (some n) none k h = (n, refl, ground arith)
larger_of-own (some n) (some m) k h = (larger n (some m), refl, ground arith)

larger_of-other :
    (o top : Option ℤ) (k t : ℤ)
    → top ≡ some t
    → leb_ℤ k t ≡ true
    → (t' : ℤ) × (larger_of o top ≡ some t') × (leb_ℤ k t' ≡ true)
larger_of-other none top k t h le = (t, h, le)
larger_of-other (some n) none k t h le = absurd (ground arith)
larger_of-other (some n) (some m) k t h le = (larger n (some m), refl, ground arith)

max_seq-IsCounted : (l : List AuditRecord) → All (IsCounted (max_seq l)) l
unfolding max_seq find
max_seq-IsCounted [] = tt
max_seq-IsCounted (r ∷ rs) = (
  λ k h. larger_of-own (seq_of r.fields) (max_seq rs) k h,
  All-map (IsCounted (max_seq rs)) _ rs
      (λ x c k h.
        let (t, top, le) = c k h in larger_of-other (seq_of r.fields) (max_seq rs) k t top le)
      (max_seq-IsCounted rs),
)

counted-IsBelow :
    (top : Option ℤ) (r : AuditRecord)
    → IsCounted top r
    → HasSeq r
    → IsBelow (or_else top (negsuc 0) +ℤ pos 1) r
unfolding find
counted-IsBelow top r c h =
    let (t, top_is, le) = c h.0 h.1 in rw top_is (rw h.1 (ground (arith, +ℤ_parts t (pos 1))))

normalize-fields :
    (rt : Runtime) (event_id : String) (now : Datetime) (source : Fields) (prev : String) (d : ℤ)
    {m : Fields}
    → normalize rt event_id now source prev d ≡ ok m
    → (all (λ f. is_some (find (name f) m)) required_fields ≡ true)
      × (find (name "seq") m ≡ some (number (or_else (seq_of source) d)))
      × (find (name "prev_hash") m ≡ some (text prev))
unfolding normalize find all
normalize-fields rt event_id now source prev d h =
    let (ts, _, h') = Errors.bind-ok (timestamp_of rt now (get "ts" source)) _ h in
    let (result, _, made) = Errors.bind-ok (safe_value rt (reported_result source) "") _ h' in
    rw (← ok-injective made) (refl, refl, refl)

module _ {B : Type 0} (rt : Runtime) (objects : ObjectStore B) (w : AuditWriter) where
  extend_from-unchanged : (l : List AuditRecord) (b : B) → (extend_from rt objects w l b).1 ≡ b
  extend_from-unchanged [] b = refl
  extend_from-unchanged (r ∷ rs) b = ground arith

  checked-ok :
      (v : Bool) (h : String) (b : B) {h' : String}
      → ((if v then pure h else raise audit_chain) b).0 ≡ ok h'
      → (v ≡ true) × (h ≡ h')
  checked-ok true h b e = (refl, ok-injective e)
  checked-ok false h b e = absurd (ground arith)

  extend_from-ok :
      (l : List AuditRecord) (b : B) {h : String}
      → (extend_from rt objects w l b).0 ≡ ok h
      → (verify_records rt (sorted record_le l) ≡ true) × (head_hash rt "" (sorted record_le l) ≡ h)
  unfolding sorted verify_records head_hash
  extend_from-ok [] b e = (refl, ok-injective e)
  extend_from-ok (r ∷ rs) b e =
      checked-ok (verify_records rt (sorted record_le (r ∷ rs)))
        (head_hash rt "" (sorted record_le (r ∷ rs))) b e

  previous_hash-found :
      (plan_id : String) (l : List AuditRecord) (b : B)
      → found_records rt objects w plan_id b ≡ (ok l, b)
      → previous_hash rt objects w plan_id b ≡ extend_from rt objects w l b
  unfolding previous_hash
  previous_hash-found plan_id l b f =
      bind-eq_ok (found_records rt objects w plan_id) (extend_from rt objects w) b f

  next_seq-found :
      (plan_id : String) (l : List AuditRecord) (b : B)
      → found_records rt objects w plan_id b ≡ (ok l, b)
      → next_seq rt objects w plan_id none b ≡ (ok (or_else (max_seq l) (negsuc 0) +ℤ pos 1), b)
  unfolding next_seq
  next_seq-found plan_id l b f = bind-eq_ok (found_records rt objects w plan_id) _ b f

  -- The record that a write of `source` stores, if the plan has the records `l`.
  abbrev pub normalized_after : String → Datetime → Fields → List AuditRecord → Result Fields
  normalized_after event_id now source l =
      normalize rt event_id now source (head_hash rt "" (sorted record_le l))
        (or_else (max_seq l) (negsuc 0) +ℤ pos 1)

  chained_after :
      (event_id : String) (now : Datetime) (source m : Fields) (body : String) (x : AuditRecord)
      (xs ys : List AuditRecord)
      → seq_of source ≡ none
      → normalized_after event_id now source (xs ++ ys) ≡ ok m
      → IsStored rt m body x
      → verify_records rt (sorted record_le (xs ++ ys)) ≡ true
      → verify_records rt (sorted record_le (xs ++ x ∷ ys)) ≡ true
  unfolding find
  chained_after event_id now source m body x xs ys unnumbered made stored v =
      let n = or_else (max_seq (xs ++ ys)) (negsuc 0) +ℤ pos 1 in
      let (required, number_is, link) = normalize-fields rt event_id now source _ n made in
      let below : All (IsBelow n) (xs ++ ys) =
        All-zip _ HasSeq _ (xs ++ ys) (counted-IsBelow (max_seq (xs ++ ys)))
          (max_seq-IsCounted (xs ++ ys)) (listed-HasSeq rt (xs ++ ys) v) in
      verify_records-add rt n m body x xs ys stored required
        (number_is ∙ ap (λ o. some (number (or_else o n))) unnumbered) link below v

  write-found :
      (event_id : String) (now : Datetime) (source m : Fields) (body : String)
      (l : List AuditRecord) (b b' : B) {key : String}
      → seq_of source ≡ none
      → found_records rt objects w (plan_id_of source) b ≡ (ok l, b)
      → normalized_after event_id now source l ≡ ok m
      → canonical_dumps rt (mapping m) ≡ ok body
      → write rt objects w event_id now source b ≡ (ok key, b')
      → (verify_records rt (sorted record_le l) ≡ true)
        × (objects.put_new_object w.bucket key body (object_lock rt objects w) b ≡ (ok tt, b'))
  unfolding write
  write-found event_id now source m body l b b' unnumbered found made dumped h =
      let plan_id = plan_id_of source in
      let (prev, s1, e1, h1) = bind-ok (previous_hash rt objects w plan_id) _ b h in
      let (d, s2, e2, h2) = bind-ok (next_seq rt objects w plan_id (seq_of source)) _ s1 h1 in
      let (m', s3, e3, h3) = bind-ok (lift (normalize rt event_id now source prev d)) _ s2 h2 in
      let (body', s4, e4, h4) = bind-ok (lift (canonical_dumps rt (mapping m'))) _ s3 h3 in
      let (_, s5, e5, h5) = bind-ok (objects.put_new_object w.bucket _ body' _) _ s4 h4 in
      let extended = sym (previous_hash-found plan_id l b found) ∙ e1 in
      let (chained, head) = extend_from-ok l b (ap (λ x. x.0) extended) in
      let s1b = sym (ap (λ x. x.1) extended) ∙ extend_from-unchanged l b in
      let numbered =
        sym (next_seq-found plan_id l b found)
        ∙ sym (λ i. next_seq rt objects w plan_id (unnumbered i) (s1b i))
        ∙ e2 in
      let same_m = ok-injective (
        sym made
        ∙ (λ i. normalize rt event_id now source (head i) (ok-injective (ap (λ x. x.0) numbered) i))
        ∙ ap (λ x. x.0) e3) in
      let same_body =
        ok-injective
          (sym dumped ∙ ap (λ f. canonical_dumps rt (mapping f)) same_m ∙ ap (λ x. x.0) e4) in
      let same_state = ap (λ x. x.1) numbered ∙ ap (λ x. x.1) e3 ∙ ap (λ x. x.1) e4 in
      let same_key = sym (ok-injective (ap (λ x. x.0) h5)) in
      (
        chained,
        (λ i.
              objects.put_new_object w.bucket (same_key i) (same_body i) (object_lock rt objects w)
                (same_state i))
            ∙ e5
            ∙ ap (λ t. (ok tt, t)) (ap (λ x. x.1) h5),
      )

  verify_found-middle :
      (x : AuditRecord) (xs ys : List AuditRecord) (b : B)
      → verify_found rt objects w (xs ++ x ∷ ys) b
        ≡ (ok (verify_records rt (sorted record_le (xs ++ x ∷ ys))), b)
  verify_found-middle x [] ys b = refl
  verify_found-middle x (y ∷ xs) ys b = refl

  verify_chain-found :
      (plan_id : String) (l : List AuditRecord) (b : B) (v : Bool)
      → records rt objects w plan_id b ≡ (ok l, b)
      → verify_found rt objects w l b ≡ (ok v, b)
      → verify_chain rt objects w plan_id b ≡ (ok v, b)
  unfolding verify_chain
  verify_chain-found plan_id l b v h k =
      catch-eq_ok (records rt objects w plan_id >>= verify_found rt objects w) (broken rt objects w)
        b (bind-eq_ok (records rt objects w plan_id) (verify_found rt objects w) b h ∙ k)

  -- If a record without a sequence number is written to a plan in whose listing the writer finds
  -- some records, and the write returns, then it has put the canonical text of the normalized
  -- record as one new object, and if the store then lists the old objects with the new one at
  -- any place among them, which reads as it was written, `verify_chain` returns true.
  pub write-verify_chain :
      (event_id : String) (now : Datetime) (source m : Fields) (body : String) (x : AuditRecord)
      (xs ys : List AuditRecord) (b b' : B) {key : String}
      → seq_of source ≡ none
      → found_records rt objects w (plan_id_of source) b ≡ (ok (xs ++ ys), b)
      → normalized_after event_id now source (xs ++ ys) ≡ ok m
      → canonical_dumps rt (mapping m) ≡ ok body
      → write rt objects w event_id now source b ≡ (ok key, b')
      → IsStored rt m body x
      → records rt objects w (plan_id_of source) b' ≡ (ok (xs ++ x ∷ ys), b')
      → (objects.put_new_object w.bucket key body (object_lock rt objects w) b ≡ (ok tt, b'))
        × (verify_chain rt objects w (plan_id_of source) b' ≡ (ok true, b'))
  write-verify_chain event_id now source m body x xs ys b b' unnumbered found made dumped h stored
        listed =
      let (chained, put) =
        write-found event_id now source m body (xs ++ ys) b b' unnumbered found made dumped h in
      let verified =
        chained_after event_id now source m body x xs ys unnumbered made stored chained in
      (
        put,
        verify_chain-found (plan_id_of source) (xs ++ x ∷ ys) b' true listed
            (verify_found-middle x xs ys b' ∙ ap (λ v. (ok v, b')) verified),
      )
