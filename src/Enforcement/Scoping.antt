-- ===== src/Enforcement/Scoping.antt =====
-- app/tasks/stream_enforcer.py, `_evaluate_policy`: the early returns for a policy that no session is
-- about.
use vodum.Common.{
  any, ℕ, ◌≡◌, refl, Bool, true, false, Option, none, some, List, [], ◌∷◌, where_rows, ◌==◌, arith,
  Bool-cases, inl, inr,
}
use vodum.State.{Provider}
use vodum.AutoEnable.{is_provider}
use vodum.Policies.{
  Session, Policy, ScopeType, policy_applies, provider_fits, server_fits, scope_fits,
}
use vodum.Enforcement.Rules.{
  StreamPolicy, Caches, Context, lacks_provider, lacks_server, lacks_user, is_out_of_scope, or_zero,
}
use vodum.Enforcement.Evaluate.{evaluate_policy, evaluate_scoped}

-- Where a test that each wanted session passes is passed by none, none is wanted.
where_rows-none :
    (wanted test : Session → Bool)
    → ((s : Session) → wanted s ≡ true → test s ≡ true)
    → (ss : List Session) → any test ss ≡ false
    → where_rows wanted ss ≡ []
where_rows-none wanted test implies [] h = refl
where_rows-none wanted test implies (s ∷ ss) h =
    ground (arith, implies s, where_rows-none wanted test implies ss)

module _ (wanted : Session → Bool) (ss : List Session) where
  lacks_provider-none :
      (provider : Option Provider)
      → ((s : Session) → wanted s ≡ true → provider_fits provider s.provider ≡ true)
      → lacks_provider provider ss ≡ true
      → where_rows wanted ss ≡ []
  unfolding lacks_provider
  lacks_provider-none none fits h = absurd (cc)
  lacks_provider-none (some p) fits h =
      where_rows-none wanted (λ s. is_provider p s.provider) fits ss (ground arith)

  lacks_server-none :
      (server_id : Option ℕ)
      → ((s : Session) → wanted s ≡ true → server_fits server_id s.server_id ≡ true)
      → lacks_server server_id ss ≡ true
      → where_rows wanted ss ≡ []
  unfolding lacks_server
  lacks_server-none none fits h = absurd (cc)
  lacks_server-none (some n) fits h =
      where_rows-none wanted (λ s. s.server_id == n) (λ s w. ground (arith, fits s w)) ss
        (ground arith)

  lacks_user-none :
      (scope_type : ScopeType) (scope_id : Option ℕ)
      → ((s : Session) → wanted s ≡ true → scope_fits scope_type scope_id s ≡ true)
      → lacks_user scope_type scope_id ss ≡ true
      → where_rows wanted ss ≡ []
  unfolding lacks_user
  lacks_user-none ScopeType.global scope_id fits h = absurd (cc)
  lacks_user-none ScopeType.server scope_id fits h = absurd (cc)
  lacks_user-none ScopeType.other_scope scope_id fits h = absurd (cc)
  lacks_user-none ScopeType.user none fits h = absurd (cc)
  lacks_user-none ScopeType.user (some n) fits h =
      where_rows-none wanted (λ s. or_zero s.vodum_user_id == n) (λ s w. ground (arith, fits s w))
        ss (ground arith)

applies_all :
    (p : Policy) (s : Session)
    → policy_applies p s ≡ true
    → (provider_fits p.provider s.provider ≡ true)
      × (server_fits p.server_id s.server_id ≡ true)
      × (scope_fits p.scope_type p.scope_id s ≡ true)
unfolding policy_applies
applies_all p s h = ground arith

is_out_of_scope-none :
    (p : Policy) (ss : List Session)
    → is_out_of_scope p ss ≡ true
    → where_rows (policy_applies p) ss ≡ []
unfolding is_out_of_scope
is_out_of_scope-none p ss h = elim (Bool-cases (lacks_provider p.provider ss)) [
  | inl a ↦ lacks_provider-none (policy_applies p) ss p.provider (λ s w. (applies_all p s w).0) a
  | inr na ↦ elim (Bool-cases (lacks_server p.server_id ss)) [
    | inl b ↦ lacks_server-none (policy_applies p) ss p.server_id (λ s w. (applies_all p s w).1) b
    | inr nb ↦
        lacks_user-none (policy_applies p) ss p.scope_type p.scope_id (λ s w. (applies_all p s w).2)
          (ground arith)
  ]
]

-- The early returns by provider, server and user change nothing: a policy is evaluated over exactly
-- the sessions that it applies to, and where there is none, nothing is found and no cache changes.
pub evaluate_policy_lem :
    (env : Context) (p : StreamPolicy) (sessions : List Session) (c : Caches)
    → evaluate_policy env p sessions c
      ≡ evaluate_scoped env p (where_rows (policy_applies p.scope) sessions) c
unfolding evaluate_policy evaluate_scoped
evaluate_policy_lem env p sessions c = elim (Bool-cases (is_out_of_scope p.scope sessions)) [
  | inl out ↦ rw (out, is_out_of_scope-none p.scope sessions out) refl
  | inr within ↦ rw within refl
]
