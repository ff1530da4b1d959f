-- ===== src/Tests/Storing.antt =====
-- A table that stores one item of each batch and gives the others back.
use sams_simlplifynext.Prelude.{
  none, List, [], ◌∷◌, All, ◌≡◌, refl, ◌⊎◌, inl, inr, ap, length, ◌+◌, ◌≤◌, arith,
}
use mathlib.Core.Path.{subst}
use sams_simlplifynext.Errors.{Result, ok, ok-injective}
use sams_simlplifynext.Value.{Fields}
use sams_simlplifynext.Contracts.{Entitlement}
use sams_simlplifynext.Prelude.Order.{insert}
use sams_simlplifynext.Prelude.Text.{text_le}
use sams_simlplifynext.Graph.Store.Codec.{TypeCodec, ddb_value}
use sams_simlplifynext.Graph.Store.Items.{entitlement_item}
use sams_simlplifynext.Graph.Store.{GraphTable, put_entitlements}
use sams_simlplifynext.Graph.Store.Batches.{IsIn, IsBatching}
use sams_simlplifynext.Graph.Store.Progress.{
  IsProgressing, IsSerializable, put_entitlements-returns,
}
use sams_simlplifynext.Graph.Store.Codec.{serialize_from}
use sams_simlplifynext.Graph.Store.Saved.{IsSaved, put_entitlements-IsSaved}
use sams_simlplifynext.Tests.Fixtures.{test_runtime, alice_write}

abbrev write_one : List Fields → List Fields → Result (List Fields) × List Fields
write_one [] d = (ok [], d)
write_one (x ∷ xs) d = (ok xs, x ∷ d)

abbrev pub slow_table : GraphTable (List Fields)
slow_table = record {
  put_item = λ m d. (ok tt, m ∷ d);
  get_item = λ pk sk d. (ok none, d);
  batch_write_item = write_one;
  query = λ index pk prefix start d. (ok ([], none), d);
  pause = λ n d. (ok tt, d);
}

own_back : (xs ys : List Fields) → xs ≡ ys → (d : List Fields) → All (λ r. IsIn r d ⊎ IsIn r ys) xs
own_back xs ys e d = subst (λ zs. All (λ r. IsIn r d ⊎ IsIn r zs) xs) e (own xs)
  where
    more :
        (x : Fields) (ys zs : List Fields)
        → All (λ r. IsIn r d ⊎ IsIn r ys) zs
        → All (λ r. IsIn r d ⊎ IsIn r (x ∷ ys)) zs
    more x ys [] a = tt
    more x ys (z ∷ zs) (inl i, a) = (inl i, more x ys zs a)
    more x ys (z ∷ zs) (inr i, a) = (inr (inr i), more x ys zs a)

    own : (xs : List Fields) → All (λ r. IsIn r d ⊎ IsIn r xs) xs
    own [] = tt
    own (x ∷ xs) = (inr (inl refl), more x xs xs (own xs))

write_one-processed :
    (pending rest d d' : List Fields)
    → write_one pending d ≡ (ok rest, d')
    → All (λ r. IsIn r d' ⊎ IsIn r rest) pending
write_one-processed [] rest d d' e = tt
write_one-processed (x ∷ xs) rest d d' e = (
  inl (subst (IsIn x) (ap (λ p. p.1) e) (inl refl)),
  own_back xs rest (ok-injective (ap (λ p. p.0) e)) d',
)

write_one-keeps : (pending d : List Fields) (r : Fields) → IsIn r d → IsIn r (write_one pending d).1
write_one-keeps [] d r h = h
write_one-keeps (x ∷ xs) d r h = inr h

slow_table-IsBatching : IsBatching slow_table IsIn
slow_table-IsBatching = record {
  processed = write_one-processed;
  batch_keeps = write_one-keeps;
  pause_keeps = λ n d r h. h;
}

abbrev pub plain_codec : TypeCodec
plain_codec = record { serialize = λ v. ok v; deserialize = λ v. ok v }

abbrev bob_write : Entitlement
bob_write = record alice_write { identity_id = "bob" }

abbrev alice_item : Fields
alice_item = entitlement_item test_runtime (λ t. t) alice_write

abbrev bob_item : Fields
bob_item = entitlement_item test_runtime (λ t. t) bob_write

two_put :
    put_entitlements test_runtime
      (λ t. t)
      plain_codec
      slow_table
      5
      (bob_write ∷ alice_write ∷ [])
      []
    ≡ (ok tt, bob_item ∷ alice_item ∷ [])
unfolding put_entitlements insert text_le ddb_value
two_put = refl

put_entitlements-IsSaved_example :
    All
      (λ e.
        IsSaved test_runtime
          (λ t. t)
          plain_codec
          slow_table
          5
          IsIn
          slow_table-IsBatching
          (bob_item ∷ alice_item ∷ [])
          (entitlement_item test_runtime (λ t. t) e))
      (bob_write ∷ alice_write ∷ [])
put_entitlements-IsSaved_example =
    put_entitlements-IsSaved test_runtime (λ t. t) plain_codec slow_table 5 IsIn
      slow_table-IsBatching (bob_write ∷ alice_write ∷ []) [] (bob_item ∷ alice_item ∷ []) two_put

slow_table-IsProgressing : IsProgressing slow_table 1
slow_table-IsProgressing = record { takes = takes; pauses = λ n d. (d, refl) }
  where
    takes :
        (pending d : List Fields)
        → (rest d' : List Fields) × (write_one pending d ≡ (ok rest, d'))
          × ((rest ≡ []) ⊎ (length rest + 1 ≤ length pending))
    takes [] d = ([], d, refl, inl refl)
    takes (x ∷ xs) d = (xs, x ∷ d, refl, inr (omega arith))

alice_serialized :
    IsSerializable test_runtime
      (λ t. t)
      plain_codec
      slow_table
      24
      1
      slow_table-IsProgressing
      (omega arith)
      alice_item
unfolding serialize_from ddb_value entitlement_item
alice_serialized = (_, refl)

put_entitlements-returns_example :
    (d : List Fields) × (put_entitlements test_runtime
        (λ t. t)
        plain_codec
        slow_table
        24
        (alice_write ∷ [])
        []
      ≡ (ok tt, d))
put_entitlements-returns_example =
    put_entitlements-returns test_runtime (λ t. t) plain_codec slow_table 24 1
      slow_table-IsProgressing (omega arith) (alice_write ∷ []) [] (alice_serialized, tt)
