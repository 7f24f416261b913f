-- ===== src/Examples/Files.antt =====
-- The theorem on backups at a concrete input.
use vodum.Common.{
  All, take, ◌+◌, ◌≤◌, ◌≡◌, refl, true, none, some, List, [], ◌∷◌, not, length, where_rows, arith,
}
use vodum.Backups.{BackupFile, safe_positive_int, is_too_old, ordered, prune_backups}
use vodum.Backups.Retention.{IsRecent, prune_backups_lem}

abbrev backups : List BackupFile
backups =
    record { path = 1; mtime = 1000; can_be_deleted = true }
    ∷ record { path = 2; mtime = 9000000; can_be_deleted = true }
    ∷ record { path = 3; mtime = 9500000; can_be_deleted = true }
    ∷ []

prune_backups_lem_example :
    let pruned = prune_backups 10000000 none (some 2) backups in
    let count = safe_positive_int (some 2) 10 in
    let days = safe_positive_int none 30 in
    (pruned.files
      ≡ where_rows (λ f. not (is_too_old 10000000 days f)) (take count (ordered backups)))
    × All (IsRecent count backups) (take count (ordered backups))
    × (length pruned.files ≤ count)
    × (pruned.deleted + length pruned.files ≡ pruned.scanned)
prune_backups_lem_example =
    prune_backups_lem 10000000 none (some 2) backups (λ i. ground arith) refl
