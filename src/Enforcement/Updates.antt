-- ===== src/Enforcement/Updates.antt =====
-- app/core/stream_enforcement_store.py: the row that an UPDATE of stream_enforcement_state changes.
use vodum.Common.{
  ◌≡◌, ◌↔◌, refl, true, false, some, List, [], ◌∷◌, eq_iff, ==_iff, find_row, count_rows, arith,
  Bool-cases, inl, inr, ap, ◌∙◌,
}
use vodum.Enforcement.Store.{
  ActorKey, same_actor_key, StateKey, same_state_key, StateRow, is_key, update_found,
}

pub same_actor_key_iff : (a b : ActorKey) → (same_actor_key a b ≡ true) ↔ (a ≡ b)
same_actor_key_iff (ActorKey.by_id u) (ActorKey.by_id v) = ground (arith, ==_iff u v)
same_actor_key_iff (ActorKey.by_id u) (ActorKey.by_text t) = ground arith
same_actor_key_iff (ActorKey.by_text s) (ActorKey.by_id v) = ground arith
same_actor_key_iff (ActorKey.by_text s) (ActorKey.by_text t) = ground (arith, eq_iff s t)

pub same_state_key_iff : (a b : StateKey) → (same_state_key a b ≡ true) ↔ (a ≡ b)
same_state_key_iff a b = ground (arith, same_actor_key_iff a.actor_key b.actor_key)

module _ (k : StateKey) (f : StateRow → StateRow) (kept : (r : StateRow) → (f r).key ≡ r.key) where
  pub find_row-update_other :
      (j : StateKey)
      → same_state_key k j ≡ false
      → (rows : List StateRow)
      → find_row (is_key j) (update_found (is_key k) f rows) ≡ find_row (is_key j) rows
  find_row-update_other j other [] = refl
  find_row-update_other j other (r ∷ rows) = ground (
    arith,
    kept r,
    same_state_key_iff r.key k,
    same_state_key_iff r.key j,
    same_state_key_iff k j,
    find_row-update_other j other rows,
  )

  pub find_row-update_own :
      (rows : List StateRow) (r : StateRow)
      → find_row (is_key k) rows ≡ some r
      → find_row (is_key k) (update_found (is_key k) f rows) ≡ some (f r)
  find_row-update_own [] r h = cc
  find_row-update_own (s ∷ rows) r h = elim (Bool-cases (is_key k s)) [
    | inl t ↦
        let e : s ≡ r = ground arith in
        let fits : is_key k (f s) ≡ true = ap (λ q. same_state_key q k) (kept s) ∙ t in
        rw (t, fits) (ap (λ (x : StateRow). some (f x)) e)
    | inr u ↦ rw (u, u) (find_row-update_own rows r (rw u at h))
  ]

  pub count_rows-update_found :
      (j : StateKey) (rows : List StateRow)
      → count_rows (is_key j) (update_found (is_key k) f rows) ≡ count_rows (is_key j) rows
  count_rows-update_found j [] = refl
  count_rows-update_found j (r ∷ rows) = elim (Bool-cases (is_key k r)) [
    | inl t ↦ rw (t, kept r) refl
    | inr u ↦ rw u (omega (arith, count_rows-update_found j rows))
  ]
