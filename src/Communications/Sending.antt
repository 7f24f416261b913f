-- ===== src/Communications/Sending.antt =====
-- app/communications_engine.py, `schedule_template_notification`: what a key stands for.
use vodum.Common.{
  ℕ, ◌≤◌, ◌≡◌, refl, Bool, true, false, not, ◌&&◌, Option, none, some, List, [], ◌∷◌, ◌++◌, String,
  str_eq, eq_iff, any, find_row, find_row-none, update_rows, where_rows, count_rows,
  count_rows-append, count_rows-update_le, where_rows-append, subst, arith, Bool-cases,
  Option-cases, inl, inr, ◌∙◌, find_row_fits,
}
use mathlib.Core.List.{append-nil}
use vodum.Communications.Queue.{
  SendStatus, Scheduled, Outbox, Notification, has_dedupe_key, is_final_error, revive_row,
  new_scheduled, is_known_provider, find_keyed, is_taken, insert_scheduled, is_row,
  schedule_existing, schedule_template_notification,
}

abbrev pub is_sent : Scheduled → Bool
is_sent r = elim r.status [ SendStatus.sent ↦ true | _ ↦ false ]

-- Sent, or to be tried.
abbrev pub is_alive : ℕ → String → Scheduled → Bool
is_alive given k r = has_dedupe_key k r && not (is_final_error given r)

any-last :
    (q : Scheduled → Bool) (rows : List Scheduled) (r : Scheduled)
    → q r ≡ true
    → any q (rows ++ r ∷ []) ≡ true
any-last q [] r h = ground arith
any-last q (x ∷ xs) r h = ground (arith, any-last q xs r)

any-found :
    (p q : Scheduled → Bool) (rows : List Scheduled) (r : Scheduled)
    → find_row p rows ≡ some r
    → q r ≡ true
    → any q rows ≡ true
any-found p q [] r e h = absurd (cc)
any-found p q (x ∷ xs) r e h = ground (arith, any-found p q xs r)

any-updated :
    (p q : Scheduled → Bool) (f : Scheduled → Scheduled) (rows : List Scheduled) (r : Scheduled)
    → find_row p rows ≡ some r
    → q (f r) ≡ true
    → any q (update_rows (is_row r.id) f rows) ≡ true
any-updated p q f [] r e h = absurd (cc)
any-updated p q f (x ∷ xs) r e h = elim (Bool-cases (p x)) [
  | inl y ↦ let same : x ≡ r = ground arith in rw same (ground arith)
  | inr n ↦ let rest = any-updated p q f xs r (rw n at e) h in ground (arith, rest)
]

update-none :
    (i : ℕ) (f : Scheduled → Scheduled) (rows : List Scheduled)
    → count_rows (is_row i) rows ≡ 0
    → update_rows (is_row i) f rows ≡ rows
update-none i f [] h = refl
update-none i f (x ∷ xs) h = ground (arith, update-none i f xs)

found-counts :
    (p : Scheduled → Bool) (rows : List Scheduled) (r : Scheduled)
    → find_row p rows ≡ some r
    → 1 ≤ count_rows (is_row r.id) rows
found-counts p [] r e = absurd (cc)
found-counts p (x ∷ xs) r e = ground (arith, found-counts p xs r)

-- An update by the key of a row that is found changes this row alone.
where-found :
    (p q : Scheduled → Bool) (f : Scheduled → Scheduled) (rows : List Scheduled) (r : Scheduled)
    → find_row p rows ≡ some r
    → q r ≡ false
    → q (f r) ≡ false
    → count_rows (is_row r.id) rows ≤ 1
    → where_rows q (update_rows (is_row r.id) f rows) ≡ where_rows q rows
where-found p q f [] r e before after once = absurd (cc)
where-found p q f (x ∷ xs) r e before after once = elim (Bool-cases (p x)) [
  | inl y ↦ let same : x ≡ r = ground arith in ground (arith, same, update-none r.id f xs)
  | inr n ↦
      let rest : find_row p xs ≡ some r = rw n at e in
      let kept = where-found p q f xs r rest before after (ground arith) in
      ground (arith, kept, found-counts p xs r rest)
]

count-found :
    (k : String) (n : Notification) (now : ℕ) (r : Scheduled) (rows : List Scheduled) (j : String)
    → count_rows (has_dedupe_key j) (update_rows (is_row r.id) (revive_row now n) rows)
      ≤ count_rows (has_dedupe_key j) rows
count-found k n now r rows j =
    count_rows-update_le (has_dedupe_key j) (is_row r.id) (revive_row now n) (λ x h e. e) rows

abbrev HasKeys : List Scheduled → Type 0
HasKeys rows = (j : String) → count_rows (has_dedupe_key j) rows ≤ 1

str_eq_refl : (k : String) → str_eq k k ≡ true
str_eq_refl k = ground (arith, eq_iff k k)

keyed : (j k : String) (r : Scheduled) → r.dedupe_key ≡ some k → has_dedupe_key j r ≡ str_eq k j
keyed j k r e = rw e refl

alive_pending :
    (given : ℕ) (k : String) (r : Scheduled)
    → r.dedupe_key ≡ some k
    → r.status ≡ SendStatus.pending
    → is_alive given k r ≡ true
unfolding is_final_error
alive_pending given k r e p = rw (e, p, str_eq_refl k) refl

count-new :
    (j k : String) (rows : List Scheduled) (r : Scheduled)
    → r.dedupe_key ≡ some k
    → find_row (has_dedupe_key k) rows ≡ none
    → count_rows (has_dedupe_key j) rows ≤ 1
    → count_rows (has_dedupe_key j) (rows ++ r ∷ []) ≤ 1
count-new j k rows r e absent once =
    let none_yet : count_rows (has_dedupe_key k) rows ≡ 0 =
      ground (arith, find_row-none (has_dedupe_key k) rows) in
    let total = count_rows-append (has_dedupe_key j) rows (r ∷ []) in
    elim (Bool-cases (str_eq k j)) [
      | inl same ↦
          let q : k ≡ j = ground (arith, eq_iff k j) in
          let zero_j : count_rows (has_dedupe_key j) rows ≡ 0 =
            subst (λ l. count_rows (has_dedupe_key l) rows ≡ 0) q none_yet in
          ground (arith, total, keyed j k r e, zero_j)
      | inr other ↦ ground (arith, total, keyed j k r e)
    ]

free_key :
    (k : String) (d : Option String) (rows : List Scheduled)
    → d ≡ some k
    → count_rows (has_dedupe_key k) rows ≡ 0
    → is_taken d rows ≡ false
free_key k d rows e h = rw (e, h) refl

schedule_new :
    (k : String) (n : Notification) (o : Outbox)
    → n.dedupe_key ≡ some k
    → is_known_provider n.provider ≡ true
    → find_row (has_dedupe_key k) o.rows ≡ none
    → HasKeys o.rows
    → let after = (insert_scheduled n o).1.rows in
      (any (is_alive n.max_attempts k) after ≡ true)
      × (where_rows is_sent after ≡ where_rows is_sent o.rows)
      × HasKeys after
unfolding insert_scheduled
schedule_new k n o key known absent keys =
    let r = new_scheduled n o in
    let none_yet : count_rows (has_dedupe_key k) o.rows ≡ 0 =
      ground (arith, find_row-none (has_dedupe_key k) o.rows) in
    rw (known, free_key k n.dedupe_key o.rows key none_yet)
      (
        any-last (is_alive n.max_attempts k) o.rows r (alive_pending n.max_attempts k r key refl),
        where_rows-append is_sent o.rows (r ∷ []) ∙ append-nil (where_rows is_sent o.rows),
        λ j. count-new j k o.rows r key absent (keys j),
      )

revived-alive :
    (given : ℕ) (k : String) (now : ℕ) (n : Notification) (r : Scheduled)
    → has_dedupe_key k r ≡ true
    → is_alive given k (revive_row now n r) ≡ true
unfolding is_final_error
revived-alive given k now n r fits = rw fits refl

failed-unsent : (given : ℕ) (r : Scheduled) → is_final_error given r ≡ true → is_sent r ≡ false
unfolding is_final_error
failed-unsent given r h = ground arith

schedule_found :
    (k : String) (n : Notification) (r : Scheduled) (o : Outbox)
    → is_known_provider n.provider ≡ true
    → find_row (has_dedupe_key k) o.rows ≡ some r
    → count_rows (is_row r.id) o.rows ≤ 1
    → HasKeys o.rows
    → let after = (schedule_existing n r o).1.rows in
      (any (is_alive n.max_attempts k) after ≡ true)
      × (where_rows is_sent after ≡ where_rows is_sent o.rows)
      × HasKeys after
unfolding schedule_existing
schedule_found k n r o known found once keys =
    let fits = find_row_fits (has_dedupe_key k) o.rows r found in
    elim (Bool-cases (is_final_error n.max_attempts r)) [
      | inl failed ↦
          rw (failed, known)
            (
              any-updated (has_dedupe_key k) (is_alive n.max_attempts k) (revive_row o.now n) o.rows
                  r found (revived-alive n.max_attempts k o.now n r fits),
              where-found (has_dedupe_key k) is_sent (revive_row o.now n) o.rows r found
                  (failed-unsent n.max_attempts r failed) refl once,
              λ j. omega (arith, count-found k n o.now r o.rows j, keys j),
            )
      | inr open_one ↦ rw open_one (
        any-found (has_dedupe_key k) (is_alive n.max_attempts k) o.rows r found
            (rw (fits, open_one) refl),
        refl,
        keys,
      )
    ]

find_keyed-some :
    (k : String) (d : Option String) (rows : List Scheduled)
    → d ≡ some k
    → str_eq k "" ≡ false
    → find_keyed d rows ≡ find_row (has_dedupe_key k) rows
find_keyed-some k d rows e full = rw (e, full) refl

schedule-none :
    (n : Notification) (o : Outbox)
    → find_keyed n.dedupe_key o.rows ≡ none
    → schedule_template_notification n o ≡ insert_scheduled n o
unfolding schedule_template_notification
schedule-none n o e = rw (schedule_template_notification, e) refl

schedule-some :
    (n : Notification) (r : Scheduled) (o : Outbox)
    → find_keyed n.dedupe_key o.rows ≡ some r
    → schedule_template_notification n o ≡ schedule_existing n r o
unfolding schedule_template_notification
schedule-some n r o e = rw (schedule_template_notification, e) refl

-- With unique ids and keys, scheduling a notification for Plex or Jellyfin under a key that is not
-- empty leaves one row with it that is sent or will be tried: a new one, one that had failed for good and starts again, or the one that stands there.
-- The rows that are sent stay as they are, and the keys stay unique.
pub schedule_template_notification_lem :
    (k : String) (n : Notification) (o : Outbox)
    → n.dedupe_key ≡ some k
    → str_eq k "" ≡ false
    → is_known_provider n.provider ≡ true
    → ((i : ℕ) → count_rows (is_row i) o.rows ≤ 1)
    → ((j : String) → count_rows (has_dedupe_key j) o.rows ≤ 1)
    → let after = (schedule_template_notification n o).1.rows in
      (any (is_alive n.max_attempts k) after ≡ true)
      × (where_rows is_sent after ≡ where_rows is_sent o.rows)
      × ((j : String) → count_rows (has_dedupe_key j) after ≤ 1)
schedule_template_notification_lem k n o key full known ids keys =
    let lookup = find_keyed-some k n.dedupe_key o.rows key full in
    elim (Option-cases (find_row (has_dedupe_key k) o.rows)) [
      | inl absent ↦
          rw (schedule-none n o (lookup ∙ absent)) (schedule_new k n o key known absent keys)
      | inr (r, found) ↦
          rw (schedule-some n r o (lookup ∙ found))
            (schedule_found k n r o known found (ids r.id) keys)
    ]
