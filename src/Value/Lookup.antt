-- ===== src/Value/Lookup.antt =====
-- Reading a field after it was written.
use sams_simlplifynext.Prelude.{String, false, some, ◌≡◌, arith}
use sams_simlplifynext.Prelude.Text.{str_eq, eq_refl, eq_iff}
use sams_simlplifynext.Value.{name, pair, Value, Fields, end, field, find, get, put}

pub get-put : (k : String) (v : Value) (m : Fields) → get k (put (name k) v m) ≡ some v
unfolding find put
get-put k v end = ground (arith, eq_refl k)
get-put k v (field j w m) = ground (arith, get-put k v m, eq_refl k)

pub get-put_other :
    (k j : String) (v : Value) (m : Fields)
    → str_eq j k ≡ false
    → get k (put (name j) v m) ≡ get k m
unfolding find put
get-put_other k j v end h = ground arith
get-put_other k j v (field (name i) w m) h =
    ground (arith, get-put_other k j v m h, eq_iff i j, eq_iff i k, eq_refl j)
get-put_other k j v (field (pair a b) w m) h = ground (arith, get-put_other k j v m h)
