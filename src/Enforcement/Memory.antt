-- ===== src/Enforcement/Memory.antt =====
-- app/core/stream_enforcement_store.py: the table stream_enforcement_state as a function of its key.
use vodum.Common.{
  ℕ, ◌+◌, ◌*◌, ◌≤◌, ◌≡◌, refl, Bool, true, false, ◌&&◌, Option, none, some, List, [], ◌∷◌, String,
  leb, find_row, find_row-none, find_row-append_none, find_row-append_other, subst, count_rows,
  count_rows-append, if◌then◌else◌, is_some, arith, Bool-cases, Option-cases, inl, inr, ap,
}
use vodum.Enforcement.Store.{
  StateKey, same_state_key, StateRow, state_key, is_key, update_found, when_set, touch, new_state,
  upsert_state, is_since, already_warned_recently,
}
use vodum.Enforcement.Updates.{
  same_state_key_iff, find_row-update_other, find_row-update_own, count_rows-update_found,
}

-- What is known under a key: when it was last warned and when last stopped.
pub record Marks : Type 0 where
  pub warned_at : Option ℕ
  pub killed_at : Option ℕ

abbrev pub Memory : Type 0
Memory = StateKey → Option Marks

abbrev marks_of : Option StateRow → Option Marks
marks_of none = none
marks_of (some r) = some (record { warned_at = r.warned_at; killed_at = r.killed_at })

abbrev pub memory : List StateRow → Memory
memory rows k = marks_of (find_row (is_key k) rows)

-- The new marks of a key.
abbrev mark : ℕ → Bool → Bool → Option Marks → Option Marks
mark now warned killed none =
    some (record { warned_at = when_set warned now none; killed_at = when_set killed now none })
mark now warned killed (some m) = some (record {
  warned_at = when_set warned now m.warned_at;
  killed_at = when_set killed now m.killed_at;
})

-- The abstract operation: one key of the memory changes.
abbrev pub note : ℕ → StateKey → Bool → Bool → Memory → Memory
note now k warned killed m j = if same_state_key k j then mark now warned killed (m k) else m j

abbrev pub is_warned_since : ℕ → ℕ → Option Marks → Bool
is_warned_since now minutes none = false
is_warned_since now minutes (some m) = is_since now minutes m.warned_at

-- The UNIQUE constraint of the table.
abbrev pub IsUnique : List StateRow → Type 0
IsUnique rows = (k : StateKey) → count_rows (is_key k) rows ≤ 1

is_key-none :
    (k : StateKey) (rows : List StateRow) (q : StateRow → Bool)
    → count_rows (is_key k) rows ≡ 0
    → is_some (find_row (λ r. is_key k r && q r) rows) ≡ false
is_key-none k [] q h = refl
is_key-none k (r ∷ rows) q h = ground (arith, is_key-none k rows q)

-- With one row for a key at most, a test of any row is a test of the first.
test-first :
    (k : StateKey) (now minutes : ℕ) (rows : List StateRow)
    → count_rows (is_key k) rows ≤ 1
    → is_some (find_row (λ r. is_key k r && is_since now minutes r.warned_at) rows)
      ≡ is_warned_since now minutes (memory rows k)
test-first k now minutes [] h = refl
test-first k now minutes (r ∷ rows) h = elim (Bool-cases (is_key k r)) [
  | inr u ↦ rw u (test-first k now minutes rows (ground arith))
  | inl t ↦
      let rest = is_key-none k rows (λ s. is_since now minutes s.warned_at) (ground arith) in
      elim (Bool-cases (is_since now minutes r.warned_at)) [
        | inl y ↦ rw (t, y) refl
        | inr n ↦ rw (t, n) rest
      ]
]

module _ (now policy_id server_id : ℕ) (user : Option ℕ) (external : String) (warned killed : Bool)
    (rows : List StateRow) where
  upsert_state-IsUnique :
      IsUnique rows
      → IsUnique (upsert_state now policy_id server_id user external warned killed rows)
  unfolding upsert_state
  upsert_state-IsUnique h j =
      let k = state_key policy_id server_id user external in
      let new = new_state now k user external warned killed in
      elim (Option-cases (find_row (is_key k) rows)) [
        | inr (r, e) ↦ rw e (
            omega
              (arith, h j, count_rows-update_found k (touch now warned killed) (λ s. refl) j rows))
        | inl e ↦ rw e (
            rw (count_rows-append (is_key j) rows (new ∷ []))
              (elim (Bool-cases (same_state_key k j)) [
                | inl t ↦
                    let same : k ≡ j = (same_state_key_iff k j).0 t in
                    let zero_own = (find_row-none (is_key k) rows).0 e in
                    let none_yet : count_rows (is_key j) rows ≡ 0 =
                      subst (λ (i : StateKey). count_rows (is_key i) rows ≡ 0) same zero_own in
                    rw (t, none_yet) (omega arith)
                | inr f ↦ rw f (omega (arith, h j))
              ]))
      ]

  upsert_state-memory :
      (j : StateKey)
      → memory (upsert_state now policy_id server_id user external warned killed rows) j
        ≡ note now (state_key policy_id server_id user external) warned killed (memory rows) j
  unfolding upsert_state
  upsert_state-memory j =
      let k = state_key policy_id server_id user external in
      let new = new_state now k user external warned killed in
      elim (Option-cases (find_row (is_key k) rows)) [
        | inr (r, e) ↦ elim (Bool-cases (same_state_key k j)) [
          | inl t ↦
              let own = find_row-update_own k (touch now warned killed) (λ s. refl) rows r e in
              rw (e, t)
                (subst
                  (λ (i : StateKey).
                    memory (update_found (is_key k) (touch now warned killed) rows) i
                    ≡ mark now warned killed
                        (some (record { warned_at = r.warned_at; killed_at = r.killed_at })))
                  ((same_state_key_iff k j).0 t) (ap marks_of own))
          | inr f ↦
              rw (e, f)
                (ap marks_of
                  (find_row-update_other k (touch now warned killed) (λ s. refl) j f rows))
        ]
        | inl e ↦ elim (Bool-cases (same_state_key k j)) [
          | inl t ↦
              let none_yet : find_row (is_key j) rows ≡ none =
                subst (λ (i : StateKey). find_row (is_key i) rows ≡ none)
                  ((same_state_key_iff k j).0 t) e in
              rw (e, t) (rw (find_row-append_none (is_key j) rows (new ∷ []) none_yet) (rw t refl))
          | inr f ↦ rw (e, f) (ap marks_of (find_row-append_other (is_key j) rows new f))
        ]
      ]

-- The table refines a memory that knows for each key when it was last warned and last stopped: an
-- upsert keeps the UNIQUE constraint and changes the marks of its key alone, which were warned and
-- stopped now as far as the arguments say so, and else keep their times; and a key counts as warned
-- of late exactly if its mark says so.
pub upsert_state_refines :
    (now policy_id server_id : ℕ) (user : Option ℕ) (external : String) (warned killed : Bool)
    (rows : List StateRow)
    → IsUnique rows
    → let k = state_key policy_id server_id user external in
      let after = upsert_state now policy_id server_id user external warned killed rows in
      IsUnique after
      × ((j : StateKey) → memory after j ≡ note now k warned killed (memory rows) j)
      × ((later minutes : ℕ)
          → already_warned_recently later policy_id server_id user external minutes after
            ≡ is_warned_since later minutes (memory after k))
unfolding already_warned_recently
upsert_state_refines now policy_id server_id user external warned killed rows h =
    let k = state_key policy_id server_id user external in
    let after = upsert_state now policy_id server_id user external warned killed rows in
    let unique = upsert_state-IsUnique now policy_id server_id user external warned killed rows h in
    (
      unique,
      upsert_state-memory now policy_id server_id user external warned killed rows,
      λ later minutes. test-first k later minutes after (unique k),
    )

-- After a warning its own key is marked with the time.
pub note-warned :
    (now later minutes : ℕ) (k : StateKey) (killed : Bool) (m : Memory)
    → is_warned_since later minutes (note now k true killed m k) ≡ leb later (now + 60 * minutes)
note-warned now later minutes k killed m = rw ((same_state_key_iff k k).1 refl) (marked (m k))
  where
    marked :
        (o : Option Marks)
        → is_warned_since later minutes (mark now true killed o) ≡ leb later (now + 60 * minutes)
    marked none = refl
    marked (some o) = refl
