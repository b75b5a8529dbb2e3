-- ===== src/Status/Phase.antt =====
-- The phase as a statement about the words of the components.
use argocd_vee.Common.{
  ◌≡◌, ◌≢◌, refl, ◌↔◌, ◌⊎◌, String, Bool, true, false, Option, none, some, string_eq, arith, eq_iff,
  ne_of_beq, ◌&&◌, ◌||◌, if◌then◌else◌, inl, inr,
}
use argocd_vee.Api.{ArgoCdSpec, ArgoCdStatus, is_enabled}
use argocd_vee.Status.{phase_of, has_remote, ready}

-- A component is ready if it runs, or if it is disabled and not there.
abbrev pub IsReady : Option Bool → String → Type 0
IsReady enabled word = ((is_enabled enabled ≡ false) × (word ≡ "Unknown")) ⊎ (word ≡ "Running")

abbrev pub HasRemote : Option String → Type 0
HasRemote none = ⊥
HasRemote (some address) = address ≢ ""

ready_iff :
    (enabled : Option Bool) (word : String) → (ready enabled word ≡ true) ↔ IsReady enabled word
ready_iff enabled word = ground (arith, eq_iff word "Unknown", eq_iff word "Running")

has_remote_iff : (remote : Option String) → (has_remote remote ≡ true) ↔ HasRemote remote
unfolding has_remote
has_remote_iff none = ground arith
has_remote_iff (some address) = ground (arith, eq_iff address "")

available≢pending : ◌≢◌ {A = String} "Pending" "Available"
available≢pending = ne_of_beq _ _ refl

abbrev gate : Bool → Bool → Bool → Bool → Bool → Bool → String
gate c r e m p v = if c && ((r || (e && m)) && (p && v)) then "Available" else "Pending"

gate_iff :
    (c r e m p v : Bool)
    → (gate c r e m p v ≡ "Available")
      ↔ ((c ≡ true) × ((r ≡ true) ⊎ ((e ≡ true) × (m ≡ true))) × (p ≡ true) × (v ≡ true))
gate_iff c r e m p v = ground (arith, available≢pending)

gate_else : (c r e m p v : Bool) → gate c r e m p v ≢ "Available" → gate c r e m p v ≡ "Pending"
gate_else c r e m p v h = ground arith

either : {A B C D : Type 0} → (A → C) → (B → D) → A ⊎ B → C ⊎ D
either f g (inl a) = inl (f a)
either f g (inr b) = inr (g b)

-- The same with what the tests mean in their places.
gate_reflects :
    {G E c r m p v C R M P V : Type 0}
    → c ↔ C
    → r ↔ R
    → m ↔ M
    → p ↔ P
    → v ↔ V
    → (G ↔ (c × (r ⊎ (E × m)) × p × v))
    → G ↔ (C × (R ⊎ (E × M)) × P × V)
gate_reflects c r m p v (f, g) = (
  λ e.
      let (a, b, d, x) = f e in (c.0 a, either r.0 (λ (h : _ × _). (h.0, m.0 h.1)) b, p.0 d, v.0 x),
  λ h.
      let (a, b, d, x) = h in g (c.1 a, either r.1 (λ (h : _ × _). (h.0, m.1 h.1)) b, p.1 d, v.1 x),
)

-- The phase is Available exactly if the application controller, the repo server and the server
-- are each ready, and redis is ready or is enabled with the address of a remote redis; it is
-- Pending otherwise.
pub phase_of_cases :
    (spec : ArgoCdSpec) (st : ArgoCdStatus)
    → ((phase_of spec st ≡ "Available") ↔ (
        IsReady spec.controller_enabled st.application_controller
        × (IsReady spec.redis.enabled st.redis
            ⊎ ((is_enabled spec.redis.enabled ≡ true) × HasRemote spec.redis.remote))
        × IsReady spec.repo_enabled st.repo
        × IsReady spec.server.enabled st.server))
      × ((phase_of spec st ≢ "Available") → phase_of spec st ≡ "Pending")
unfolding phase_of
phase_of_cases spec st = (
  gate_reflects (ready_iff spec.controller_enabled st.application_controller)
      (ready_iff spec.redis.enabled st.redis) (has_remote_iff spec.redis.remote)
      (ready_iff spec.repo_enabled st.repo) (ready_iff spec.server.enabled st.server)
      (gate_iff _ _ (is_enabled spec.redis.enabled) _ _ _),
  gate_else (ready spec.controller_enabled st.application_controller)
      (ready spec.redis.enabled st.redis) (is_enabled spec.redis.enabled)
      (has_remote spec.redis.remote) (ready spec.repo_enabled st.repo)
      (ready spec.server.enabled st.server),
)
