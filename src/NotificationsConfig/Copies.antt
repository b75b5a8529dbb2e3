-- ===== src/NotificationsConfig/Copies.antt =====
-- The maps of controllers/notificationsconfiguration/configmap.go: what a copied map and a compared
-- map have under a key.
use argocd_vee.Common.{
  copy_into, Entries, get-put, ◌≡◌, refl, String, Option, none, some, [], ◌∷◌, string_eq, get, put,
  HasDistinctKeys, arith, eq_iff,
}

-- The first of two values.
abbrev pub first_of : Option String → Option String → Option String
first_of (some v) later = some v
first_of none later = later

pub get-copy_into :
    (key : String) (a m : Entries)
    → HasDistinctKeys a
    → get key (copy_into a m) ≡ first_of (get key a) (get key m)
unfolding copy_into get HasDistinctKeys
get-copy_into key [] m h = refl
get-copy_into key ((k, v) ∷ rest) m (n, h) =
    ground (arith, eq_iff k key, get-copy_into key rest (put k v m) h, get-put key k v m)
