-- ===== src/Backups.antt =====
-- app/core/backup_retention.py: which backups are deleted. A file is one that the patterns find, with
-- its path as a number; it does not change or go while the function runs.
use vodum.Common.{
  take, ℕ, ◌+◌, ◌*◌, Bool, true, false, not, ◌&&◌, ◌||◌, Option, none, some, List, [], ◌∷◌, ltb,
  leb, ◌==◌, any, length, where_rows, count_rows, sort_by, if◌then◌else◌,
}
pub mod Retention

pub record BackupFile : Type 0 where
  pub path : ℕ
  pub mtime : ℕ
  pub can_be_deleted : Bool

-- A text that is no number and a negative number are `none`.
unfoldable pub safe_positive_int : Option ℕ → ℕ → ℕ
safe_positive_int none default = default
safe_positive_int (some parsed) default = if leb 1 parsed then parsed else default

abbrev pub is_among : List BackupFile → BackupFile → Bool
is_among kept f = any (λ (g : BackupFile). g.path == f.path) kept

-- `mtime < now - days * 86400`, where the difference may be negative.
abbrev pub is_too_old : ℕ → ℕ → BackupFile → Bool
is_too_old now days f = ltb (f.mtime + days * 86400) now

abbrev pub is_not_older : BackupFile → BackupFile → Bool
is_not_older f g = leb g.mtime f.mtime

-- Newest first; the sort is stable.
unfoldable pub ordered : List BackupFile → List BackupFile
ordered = sort_by is_not_older

-- A file that cannot be deleted is reported and stays.
abbrev pub is_deleted : ℕ → ℕ → List BackupFile → BackupFile → Bool
is_deleted now days kept f = (is_too_old now days f || not (is_among kept f)) && f.can_be_deleted

pub record Pruned : Type 0 where
  pub files : List BackupFile
  pub scanned : ℕ
  pub deleted : ℕ

unfoldable pub prune_backups : ℕ → Option ℕ → Option ℕ → List BackupFile → Pruned
prune_backups now retention_days retention_count files =
    let days = safe_positive_int retention_days 30 in
    let kept = take (safe_positive_int retention_count 10) (ordered files) in
    record {
      files = where_rows (λ f. not (is_deleted now days kept f)) (ordered files);
      scanned = length (ordered files);
      deleted = count_rows (is_deleted now days kept) (ordered files);
    }
