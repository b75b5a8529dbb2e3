-- ===== src/Hostname/Tests.antt =====
-- shortenHostname on small inputs, and its theorems at a long host name.
use argocd_vee.Common.{ℕ, zero, suc, ◌≤◌, ◌<◌, ◌≡◌, refl, arith, List, [], ◌∷◌, ◌++◌, length}
use argocd_vee.Hostname.{shorten_hostname, ok, err, label_too_long}
use argocd_vee.Hostname.Labels.{dot, split, join_rest, join}
use argocd_vee.Hostname.Spec.{closed_form, shorten_hostname-eq-closed_form}
use argocd_vee.Hostname.Limits.{shorten_hostname_bounded, shorten_hostname_overlong}

copies : ℕ → List ℕ → List ℕ
copies zero s = []
copies (suc n) s = s ++ copies n s

abbrev a : List ℕ
a = b'a' ∷ []

-- A first label of 30 bytes, and four labels of 63 or 50 bytes behind it.
abbrev tail_label : ℕ → List ℕ
tail_label n = dot ∷ copies n a

abbrev long_name : List ℕ
long_name = copies 30 a ++ (tail_label 63 ++ (tail_label 63 ++ (tail_label 63 ++ tail_label 50)))

-- 63 + 192 bytes: the loop takes two bytes more.
cut_by_loop :
    shorten_hostname (copies 100 a ++ (tail_label 63 ++ (tail_label 63 ++ tail_label 63)))
    ≡ ok (copies 61 a ++ (tail_label 63 ++ (tail_label 63 ++ tail_label 63)))
unfolding shorten_hostname copies split join
cut_by_loop = refl

bad_label : shorten_hostname (copies 200 a ++ tail_label 64) ≡ err label_too_long
unfolding shorten_hostname copies split join
bad_label = refl

shorten_hostname-eq-closed_form_example : shorten_hostname long_name ≡ closed_form long_name
shorten_hostname-eq-closed_form_example = shorten_hostname-eq-closed_form long_name

-- 200 bytes of the first label are cut to 63, which is enough.
cut_name : shorten_hostname (copies 200 a ++ tail_label 60) ≡ ok (copies 63 a ++ tail_label 60)
unfolding shorten_hostname copies split join
cut_name = refl

shorten_hostname_bounded_example : length (copies 63 a ++ tail_label 60) ≤ 253
unfolding copies split join_rest
shorten_hostname_bounded_example =
    shorten_hostname_bounded (copies 200 a ++ tail_label 60) (omega arith) cut_name

shorten_hostname_overlong_example :
    (r : List ℕ) × (shorten_hostname long_name ≡ ok r) × (253 < length r)
unfolding copies split join_rest
shorten_hostname_overlong_example =
    shorten_hostname_overlong long_name refl (omega arith) (omega arith)
