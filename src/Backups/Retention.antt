-- ===== src/Backups/Retention.antt =====
-- app/core/backup_retention.py: the backups that stay are the newest ones that are young enough.
use vodum.Common.{
  ltb, ◌<◌, All, sort_by, take-few, sort_by-IsSorted, take, ap, ℕ, zero, suc, ◌+◌, ◌≤◌, ◌≡◌, refl,
  Bool, false, not, ◌||◌, Option, List, [], ◌∷◌, ◌==◌, length, where_rows, count_rows,
  count_rows-sort_by, arith, ◌∙◌, Bool-cases, inl, inr,
}
use vodum.Backups.{
  BackupFile, safe_positive_int, is_among, is_too_old, ordered, is_deleted, is_not_older,
  prune_backups,
}

abbrev pub has_path : ℕ → BackupFile → Bool
has_path i f = f.path == i

where-absent :
    (i : ℕ) (q : BackupFile → Bool) (fs : List BackupFile)
    → count_rows (has_path i) fs ≡ 0
    → where_rows (λ f. (i == f.path) || q f) fs ≡ where_rows q fs
where-absent i q [] h = refl
where-absent i q (f ∷ fs) h = ground (arith, where-absent i q fs)

where-none : (fs : List BackupFile) → where_rows (λ f. false) fs ≡ []
where-none [] = refl
where-none (f ∷ fs) = where-none fs

where-among :
    (n : ℕ) (fs : List BackupFile)
    → ((i : ℕ) → count_rows (has_path i) fs ≤ 1)
    → where_rows (is_among (take n fs)) fs ≡ take n fs
where-among zero fs h = where-none fs
where-among (suc n) [] h = refl
where-among (suc n) (f ∷ fs) h =
    let absent : count_rows (has_path f.path) fs ≡ 0 = ground (arith, h f.path) in
    let same = where-absent f.path (is_among (take n fs)) fs absent in
    let rest = where-among n fs (λ i. ground (arith, h i)) in ground (arith, same ∙ rest)

length-take : (n : ℕ) (fs : List BackupFile) → length (take n fs) ≤ n
length-take zero fs = omega arith
length-take (suc n) [] = omega arith
length-take (suc n) (f ∷ fs) = omega (arith, length-take n fs)

length-where_le :
    (q : BackupFile → Bool) (fs : List BackupFile) → length (where_rows q fs) ≤ length fs
length-where_le q [] = omega arith
length-where_le q (f ∷ fs) = ground (arith, length-where_le q fs)

count-and-rest :
    (q : BackupFile → Bool) (fs : List BackupFile)
    → count_rows q fs + length (where_rows (λ f. not (q f)) fs) ≡ length fs
count-and-rest q [] = omega arith
count-and-rest q (f ∷ fs) = ground (arith, count-and-rest q fs)

abbrev pub is_stuck : BackupFile → Bool
is_stuck f = not f.can_be_deleted

-- Where every file can be deleted, those stay that are among the kept ones and young enough.
where-left :
    (now days : ℕ) (kept fs : List BackupFile)
    → count_rows is_stuck fs ≡ 0
    → where_rows (λ f. not (is_deleted now days kept f)) fs
      ≡ where_rows (λ f. not (is_too_old now days f)) (where_rows (is_among kept) fs)
where-left now days kept [] h = refl
where-left now days kept (f ∷ fs) h =
    let rest = where-left now days kept fs (ground (arith)) in
    elim (Bool-cases (is_among kept f)) [
      | inl y ↦ ground (arith, rest)
      | inr n ↦ ground (arith, rest)
    ]

-- A file with fewer than n newer ones.
abbrev pub IsRecent : ℕ → List BackupFile → BackupFile → Type 0
IsRecent n files f = count_rows (λ g. ltb f.mtime g.mtime) files < n

newer_sorted :
    (f : BackupFile) (fs : List BackupFile)
    → count_rows (λ g. not (is_not_older f g)) fs ≡ count_rows (λ g. ltb f.mtime g.mtime) fs
newer_sorted f [] = refl
newer_sorted f (g ∷ gs) = ground (arith, newer_sorted f gs)

IsRecent-all :
    (n : ℕ) (files ks : List BackupFile)
    → All (λ f. count_rows (λ g. not (is_not_older f g)) (sort_by is_not_older files) < n) ks
    → All (IsRecent n files) ks
IsRecent-all n files [] h = tt
IsRecent-all n files (f ∷ ks) h = (
  omega (
    arith,
    h.0,
    newer_sorted f (sort_by is_not_older files),
    count_rows-sort_by (λ g. ltb f.mtime g.mtime) is_not_older files,
  ),
  IsRecent-all n files ks h.1,
)

take-IsRecent : (n : ℕ) (files : List BackupFile) → All (IsRecent n files) (take n (ordered files))
unfolding ordered
take-IsRecent n files = IsRecent-all n files (take n (sort_by is_not_older files)) (
    take-few is_not_older (λ f g h. ground (arith, h)) (λ f g k h i. ground (arith, h, i)) n
      (sort_by is_not_older files)
      (sort_by-IsSorted is_not_older (λ f g h. ground (arith, h))
        (λ f g k h i. ground (arith, h, i)) files))

-- If every file can be deleted and no path comes twice, the files that stay are the first ones of an
-- order of the files, up to the count, without those that are too old; each of the first ones has fewer
-- newer files than the count, so that none is deleted before an older one of them. Each other file is
-- counted as deleted.
pub prune_backups_lem :
    (now : ℕ) (retention_days retention_count : Option ℕ) (files : List BackupFile)
    → ((i : ℕ) → count_rows (has_path i) files ≤ 1)
    → count_rows is_stuck files ≡ 0
    → let pruned = prune_backups now retention_days retention_count files in
      let count = safe_positive_int retention_count 10 in
      let days = safe_positive_int retention_days 30 in
      (pruned.files ≡ where_rows (λ f. not (is_too_old now days f)) (take count (ordered files)))
      × All (IsRecent count files) (take count (ordered files))
      × (length pruned.files ≤ count)
      × (pruned.deleted + length pruned.files ≡ pruned.scanned)
unfolding prune_backups ordered
prune_backups_lem now retention_days retention_count files distinct free =
    let fs = ordered files in
    let count = safe_positive_int retention_count 10 in
    let days = safe_positive_int retention_days 30 in
    let kept = take count fs in
    let once : (i : ℕ) → count_rows (has_path i) fs ≤ 1 =
      λ i. omega (arith, count_rows-sort_by (has_path i) is_not_older files, distinct i) in
    let left =
      where-left now days kept fs (count_rows-sort_by is_stuck is_not_older files ∙ free)
      ∙ ap (where_rows (λ f. not (is_too_old now days f))) (where-among count fs once) in
    (
      left,
      take-IsRecent count files,
      rw left (
          omega
            (arith, length-where_le (λ f. not (is_too_old now days f)) kept, length-take count fs)),
      count-and-rest (is_deleted now days kept) fs,
    )
