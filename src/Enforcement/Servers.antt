-- ===== src/Enforcement/Servers.antt =====
-- app/tasks/stream_enforcer.py, `_evaluate_policy`: the rules that are applied to each server for
-- itself.
use vodum.Common.{
  ℕ, ◌≡◌, true, List, [], ◌∷◌, String, ◌==◌, All, where_rows-fit, where_rows, ==_iff, group_by,
  group_by-AreGroups, AreGroups, sym, subst,
}
use vodum.Policies.{Session, number_keys, user_keys}
use vodum.Enforcement.Rules.{
  StreamPolicy, selector_of, by_server, server_violations, device_violations, is_refused,
}
use vodum.Enforcement.Users.{ip_keys}
use vodum.Enforcement.Aim.{IsAimed, server_violations-IsAimed}

abbrev OnServers : List (ℕ × List Session) → Type 0
OnServers groups = All (λ (g : ℕ × List Session). All (λ s. s.server_id ≡ g.0) g.1) groups

on_server :
    (n : ℕ) (ss : List Session)
    → All (λ (s : Session). (s.server_id == n) ≡ true) ss
    → All (λ (s : Session). s.server_id ≡ n) ss
on_server n [] h = tt
on_server n (s ∷ ss) h = ((==_iff s.server_id n).0 h.0, on_server n ss h.1)

AreGroups-OnServers :
    (sessions : List Session) (groups : List (ℕ × List Session))
    → AreGroups (λ (s : Session). s.server_id) sessions groups
    → OnServers groups
AreGroups-OnServers sessions [] h = tt
AreGroups-OnServers sessions ((n, ss) ∷ groups) h =
    let fit = on_server n _ (where_rows-fit (λ (s : Session). s.server_id == n) sessions) in
    (
      subst (λ (xs : List Session). All (λ (s : Session). s.server_id ≡ n) xs) (sym h.0) fit,
      AreGroups-OnServers sessions groups h.1,
    )

by_server-OnServers : (sessions : List Session) → OnServers (by_server sessions)
unfolding by_server
by_server-OnServers sessions =
    AreGroups-OnServers sessions (group_by (λ (s : Session). s.server_id) sessions)
      (group_by-AreGroups (λ (s : Session). s.server_id) sessions)

pub server_rule-IsAimed :
    (kind actor selector : String) (least : ℕ) (sessions : List Session)
    → All IsAimed (server_violations kind actor selector least (by_server sessions))
server_rule-IsAimed kind actor selector least sessions =
    server_violations-IsAimed kind actor selector least (by_server sessions)
      (by_server-OnServers sessions)

pub device_violations-IsAimed :
    (p : StreamPolicy) (ss : List Session) (allowed : List String)
    → p.rule.allowed ≡ allowed
    → All IsAimed (device_violations p ss)
unfolding device_violations
device_violations-IsAimed p ss [] e = rw e tt
device_violations-IsAimed p ss (a ∷ allowed) e = rw e (
    server_rule-IsAimed "device" "device" (selector_of p) 0
      (where_rows (is_refused (a ∷ allowed)) ss))
