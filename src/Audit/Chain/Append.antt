-- ===== src/Audit/Chain/Append.antt =====
-- A chain stays a chain when a record with the hash of its last object and a new number is added.
use sams_simlplifynext.Prelude.{
  String, true, false, Option, none, some, is_some, List, [], ◌∷◌, ◌++◌, All, All-map, All-left,
  any, all, ◌≡◌, refl, ap, ◌∙◌, and-true, true-and, fun_ext, arith,
}
use sams_simlplifynext.Prelude.Text.{eq_refl}
use sams_simlplifynext.Prelude.Int.{ℤ, ltb_ℤ, eqb_ℤ}
use sams_simlplifynext.Prelude.Order.{
  IsOrder, sorted, lex-IsOrder, by_text-IsOrder, insert_last, sorted-middle, sorted-All, All-sorted,
}
use sams_simlplifynext.Errors.{ok}
use sams_simlplifynext.Runtime.{Runtime}
use sams_simlplifynext.Value.{Fields, name, text, number, mapping, find}
use sams_simlplifynext.Plan.Canonical.{canonical_dumps}
use sams_simlplifynext.Audit.Chain.{
  AuditRecord, required_fields, seq_of, seq_key, by_seq, record_le, number_of, is_result, is_text,
  is_fresh, is_canonical, is_next, verify_from, verify_records, head_hash,
}

by_seq-IsOrder : IsOrder by_seq
unfolding by_seq seq_key seq_of find
by_seq-IsOrder = record { total = λ a b h. ground arith; trans = λ a b c h k. ground arith }

record_le-IsOrder : IsOrder record_le
unfolding record_le
record_le-IsOrder = search (lex-IsOrder, by_text-IsOrder, by_seq-IsOrder)

-- The number of the record is below `n`.
abbrev pub IsBelow : ℤ → AuditRecord → Type 0
unfolding seq_key seq_of find
IsBelow n r = ltb_ℤ (seq_key r) n ≡ true

-- The record has a number.
abbrev pub HasSeq : AuditRecord → Type 0
unfolding seq_of find
HasSeq r = (n : ℤ) × (seq_of r.fields ≡ some n)

-- How an object reads that was put with the text `body` of the record `m`: `json.loads` keeps what
-- fields there are, the texts and the numbers, and the canonical text of what it gives is the text.
pub record IsStored (rt : Runtime) (m : Fields) (body : String) (r : AuditRecord) : Type 0 where
  pub raw : r.raw ≡ body
  pub canonical : canonical_dumps rt (mapping r.fields) ≡ ok body
  pub present : (k : String) → is_some (find (name k) r.fields) ≡ is_some (find (name k) m)
  pub texts :
      (k s : String) → find (name k) m ≡ some (text s) → find (name k) r.fields ≡ some (text s)
  pub numbers :
      (k : String) (n : ℤ)
      → find (name k) m ≡ some (number n)
      → find (name k) r.fields ≡ some (number n)

seqs_after : List ℤ → List AuditRecord → List ℤ
unfolding seq_key seq_of find
seqs_after seen [] = seen
seqs_after seen (r ∷ rs) = seqs_after (seq_key r ∷ seen) rs

seqs_after-fresh :
    (n : ℤ) (seen : List ℤ) (l : List AuditRecord)
    → any (eqb_ℤ n) seen ≡ false
    → All (IsBelow n) l
    → any (eqb_ℤ n) (seqs_after seen l) ≡ false
unfolding seqs_after any seq_key
seqs_after-fresh n seen [] h a = h
seqs_after-fresh n seen (r ∷ rs) h a =
    seqs_after-fresh n (seq_key r ∷ seen) rs (ground (arith, a.0)) a.1

above_new :
    (n : ℤ) (x y : AuditRecord) → seq_of x.fields ≡ some n → IsBelow n y → record_le x y ≡ false
unfolding record_le
above_new n x y h b = ground arith

module _ (rt : Runtime) where
  verify_from-snoc :
      (p : String) (seen : List ℤ) (l : List AuditRecord) (x : AuditRecord)
      → verify_from rt p seen l ≡ true
      → is_next rt (head_hash rt p l) (seqs_after seen l) x ≡ true
      → verify_from rt p seen (l ++ x ∷ []) ≡ true
  unfolding verify_from head_hash seqs_after
  verify_from-snoc p seen [] x v n = true-and _ _ n refl
  verify_from-snoc p seen (r ∷ rs) x v n =
      true-and _ _ (and-true _ _ v).0
        (verify_from-snoc (rt.sha256 r.raw) (seq_key r ∷ seen) rs x (and-true _ _ v).1 n)

  fresh-HasSeq : (seen : List ℤ) (o : Option ℤ) → is_fresh seen o ≡ true → (n : ℤ) × (o ≡ some n)
  fresh-HasSeq seen none h = absurd (ground arith)
  fresh-HasSeq seen (some n) h = (n, refl)

  verify_from-HasSeq :
      (p : String) (seen : List ℤ) (l : List AuditRecord)
      → verify_from rt p seen l ≡ true
      → All HasSeq l
  unfolding verify_from is_next any
  verify_from-HasSeq p seen [] v = tt
  verify_from-HasSeq p seen (r ∷ rs) v =
      let (h, t) = and-true _ _ v in
      (
        fresh-HasSeq seen _ (and-true _ _ (and-true _ _ h).1).0,
        verify_from-HasSeq (rt.sha256 r.raw) (seq_key r ∷ seen) rs t,
      )

  fresh_number :
      (n : ℤ) (seen : List ℤ) (o : Option ℤ)
      → o ≡ some n
      → any (eqb_ℤ n) seen ≡ false
      → is_fresh seen o ≡ true
  fresh_number n seen o h fr = rw h (rw fr refl)

  canonical_text :
      (body : String) (r : AuditRecord)
      → canonical_dumps rt (mapping r.fields) ≡ ok body
      → r.raw ≡ body
      → is_canonical rt r ≡ true
  canonical_text body r h raw = rw (h, raw, is_result) (eq_refl body)

  pub stored_seq :
      (n : ℤ) (m : Fields) (body : String) (r : AuditRecord)
      → IsStored rt m body r
      → find (name "seq") m ≡ some (number n)
      → seq_of r.fields ≡ some n
  unfolding seq_of find
  stored_seq n m body r st h = ap number_of (st.numbers "seq" n h)

  stored-is_next :
      (p : String) (seen : List ℤ) (n : ℤ) (m : Fields) (body : String) (r : AuditRecord)
      → IsStored rt m body r
      → all (λ f. is_some (find (name f) m)) required_fields ≡ true
      → find (name "seq") m ≡ some (number n)
      → find (name "prev_hash") m ≡ some (text p)
      → any (eqb_ℤ n) seen ≡ false
      → is_next rt p seen r ≡ true
  unfolding is_next seq_of find
  stored-is_next p seen n m body r st req sq pr fr =
      let numbered : is_fresh seen (seq_of r.fields) ≡ true =
        fresh_number n seen _ (stored_seq n m body r st sq) fr in
      let linked : is_text p (find (name "prev_hash") r.fields) ≡ true =
        rw (st.texts "prev_hash" p pr) (eq_refl p) in
      let canonical : is_canonical rt r ≡ true = canonical_text body r st.canonical st.raw in
      true-and _ _ (ap (λ test. all test required_fields) (fun_ext st.present) ∙ req)
        (true-and _ _ numbered (true-and _ _ linked canonical))

  -- The list as `sorted` gives it, wherever the new object stands in the listing.
  sorted_new :
      (n : ℤ) (x : AuditRecord) (xs ys : List AuditRecord)
      → seq_of x.fields ≡ some n
      → All (IsBelow n) (xs ++ ys)
      → sorted record_le (xs ++ x ∷ ys) ≡ sorted record_le (xs ++ ys) ++ x ∷ []
  sorted_new n x xs ys h b =
      let above =
        sorted-All record_le (λ y. record_le x y ≡ false) (xs ++ ys)
          (All-map (IsBelow n) _ (xs ++ ys) (λ y. above_new n x y h) b) in
      sorted-middle record_le record_le-IsOrder x xs ys
        (All-left _ xs ys (All-map (IsBelow n) _ (xs ++ ys) (λ y. above_new n x y h) b))
      ∙ insert_last record_le x (sorted record_le (xs ++ ys)) above

  -- The numbers of a chain are all known, in the listing too.
  pub listed-HasSeq :
      (l : List AuditRecord) → verify_records rt (sorted record_le l) ≡ true → All HasSeq l
  unfolding verify_records
  listed-HasSeq l v =
      All-sorted record_le HasSeq l (verify_from-HasSeq "" [] (sorted record_le l) v)

  pub verify_records-add :
      (n : ℤ) (m : Fields) (body : String) (x : AuditRecord) (xs ys : List AuditRecord)
      → IsStored rt m body x
      → all (λ f. is_some (find (name f) m)) required_fields ≡ true
      → find (name "seq") m ≡ some (number n)
      → find (name "prev_hash") m ≡ some (text (head_hash rt "" (sorted record_le (xs ++ ys))))
      → All (IsBelow n) (xs ++ ys)
      → verify_records rt (sorted record_le (xs ++ ys)) ≡ true
      → verify_records rt (sorted record_le (xs ++ x ∷ ys)) ≡ true
  unfolding verify_records
  verify_records-add n m body x xs ys st req sq pr below v =
      let l = sorted record_le (xs ++ ys) in
      let fresh =
        seqs_after-fresh n [] l refl (sorted-All record_le (IsBelow n) (xs ++ ys) below) in
      rw (sorted_new n x xs ys (stored_seq n m body x st sq) below) (
        verify_from-snoc "" [] l x v
          (stored-is_next (head_hash rt "" l) (seqs_after [] l) n m body x st req sq pr fresh))
