-- ===== src/Objects/Table.antt =====
-- An API server for one kind: a table from namespaces and names to objects, in which every write is
-- accepted.
use argocd_vee.Common.{
  false, ◌≡◌, String, Bool, none, ◌==◌, string_eq, ◌&&◌, if◌then◌else◌, arith, eq_iff,
}
use argocd_vee.Kube.{Fetch, found, missing}
use argocd_vee.Objects.{ObjectClient, IsStore, KeepsOthers}

abbrev pub Table : Type 0 → Type 0
Table A = String → String → Fetch A

is_key : String → String → String → String → Bool
is_key ns n ms m = ns == ms && n == m

unfoldable pub set : {A : Type 0} → String → String → Fetch A → Table A → Table A
unfolding is_key
set ns n a t ms m = if is_key ns n ms m then a else t ms m

unfoldable pub table_client : {A : Type 0} → ObjectClient (Table A) A
unfolding set
table_client = record {
  get = λ t ns n. t ns n;
  create = λ ns n a t. (set ns n (found a) t, none);
  update = λ ns n a t. (set ns n (found a) t, none);
  delete = λ ns n t. (set ns n missing t, none);
  own = λ a. none;
}

set_same : {A : Type 0} (ns n : String) (a : Fetch A) (t : Table A) → set ns n a t ns n ≡ a
unfolding set is_key
set_same ns n a t = ground (arith, eq_iff ns ns, eq_iff n n)

pub table_client-IsStore : {A : Type 0} → IsStore {W = Table A} table_client
unfolding table_client
table_client-IsStore = record {
  created = λ ns n a w h. set_same ns n (found a) w;
  updated = λ ns n a w h. set_same ns n (found a) w;
  deleted = λ ns n w h. set_same ns n missing w;
}

set_elsewhere :
    {A : Type 0} (ns ms n : String) (a : Fetch A) (t : Table A)
    → (ns == ms) ≡ false
    → set ns n a t ms n ≡ t ms n
unfolding set is_key
set_elsewhere ns ms n a t h = ground arith

pub table_client-KeepsOthers : {A : Type 0} → KeepsOthers {W = Table A} table_client
unfolding table_client
table_client-KeepsOthers = record {
  created = λ ns ms n a w h. set_elsewhere ns ms n (found a) w h;
  updated = λ ns ms n a w h. set_elsewhere ns ms n (found a) w h;
  deleted = λ ns ms n w h. set_elsewhere ns ms n missing w h;
}

abbrev pub empty_table : {A : Type 0} → Table A
empty_table ns n = missing
