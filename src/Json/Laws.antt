-- ===== src/Json/Laws.antt =====
-- What a dict answers after an entry is set, removed or merged.
use ocsf_forge.Prelude.{◌≡◌, refl, none, some, arith, if◌then◌else◌}
use ocsf_forge.Text.{Text, text_eq, text_eq_iff}
use ocsf_forge.Json.{Value, Fields, end, field, get, put, remove}

pub get-put :
    (d : Fields) (k : Text) (v : Value) (j : Text)
    → get (put d k v) j ≡ (if text_eq j k then some v else get d j)
get-put end k v j = refl
get-put (field i w d) k v j =
    ground (arith, text_eq_iff j k, text_eq_iff j i, text_eq_iff k i, get-put d k v j)

pub get-remove :
    (d : Fields) (k j : Text) → get (remove d k) j ≡ (if text_eq j k then none else get d j)
get-remove end k j = ground arith
get-remove (field i w d) k j =
    ground (arith, text_eq_iff j k, text_eq_iff j i, text_eq_iff k i, get-remove d k j)
