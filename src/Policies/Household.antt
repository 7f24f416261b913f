-- ===== src/Policies/Household.antt =====
-- app/core/stream_household_dedupe.py: sessions that seem to be of one household count once, also
-- those of the last minutes. RECENT_SESSION_CACHE is a list of its users with their sessions, and a
-- call's clock one number of seconds.
use vodum.Common.{
  ℕ, zero, suc, ◌-◌, Bool, false, ◌&&◌, ◌||◌, not, none, some, List, [], ◌∷◌, ◌++◌, String, str_eq,
  ltb, leb, ◌==◌, length, where_rows, if◌then◌else◌, add_group,
}
use Prim.Native.Nat.{◌/◌, ◌%◌}
use Prim.Native.String.{◌++◌ as str_append}
use vodum.Policies.Scope.{Session, has_text}
use vodum.Policies.Identity.{Addresses, is_probable_same_household}
use vodum.Policies.Keys.{text_keys}

abbrev pub household_memory_seconds : ℕ
household_memory_seconds = 300

abbrev pub remembered_sessions : ℕ
remembered_sessions = 25

-- A session with its `_cache_ts`.
pub record Remembered : Type 0 where
  pub session : Session
  pub cache_ts : ℕ

abbrev pub Recent : Type 0
Recent = List (String × List Remembered)

abbrev digit : ℕ → String
digit n =
    if n == 0
    then "0"
    else if n == 1
    then "1"
    else if n == 2
    then "2"
    else if n == 3
    then "3"
    else if n == 4
    then "4"
    else if n == 5
    then "5"
    else if n == 6
    then "6"
    else if n == 7
    then "7"
    else if n == 8
    then "8"
    else "9"

-- `str(n)`, on fuel of which there is enough: a number has no more digits than its value and one.
decimal : ℕ → ℕ → String
decimal zero n = ""
decimal (suc fuel) n =
    let front = decimal fuel (n / 10) in
    if ltb n 10 then digit n else str_append front (digit (n % 10))

-- `str(vodum_user_id or external_user_id or "unknown")`
unfoldable pub household_user : Session → String
unfolding decimal
household_user s =
    let text = if has_text s.external_user_id then s.external_user_id else "unknown" in
    elim s.vodum_user_id [ none ↦ text | some u ↦ if u == 0 then text else decimal (suc u) u ]

-- `RECENT_SESSION_CACHE.get(user_key, [])`
abbrev pub remembered : String → Recent → List Remembered
remembered k [] = []
remembered k ((j, rs) ∷ cache) = if str_eq j k then rs else remembered k cache

abbrev pub fresh : ℕ → List Remembered → List Remembered
fresh now rs = where_rows (λ r. leb (now - r.cache_ts) household_memory_seconds) rs

abbrev pub keep_user : String → List Remembered → Recent → Recent
keep_user k [] cache = cache
keep_user k (r ∷ rs) cache = (k, r ∷ rs) ∷ cache

unfoldable pub cleanup_recent_session_cache : ℕ → Recent → Recent
cleanup_recent_session_cache now [] = []
cleanup_recent_session_cache now ((k, rs) ∷ cache) =
    keep_user k (fresh now rs) (cleanup_recent_session_cache now cache)

abbrev pub is_seen : String → List String → Bool
is_seen k [] = false
is_seen k (j ∷ seen) = str_eq j k || is_seen k seen

-- The loop over the remembered sessions of one user: what it appends, and the keys seen.
unfoldable pub enrich_previous : List Remembered → List String → List Session × List String
enrich_previous [] seen = ([], seen)
enrich_previous (r ∷ rs) seen =
    let k = r.session.session_key in
    let skip = has_text k && is_seen k seen in
    let rest = enrich_previous rs (if has_text k && not skip then k ∷ seen else seen) in
    if skip then rest else (r.session ∷ rest.0, rest.1)

unfoldable pub enrich : Recent → List Session → List String → List Session
unfolding enrich_previous household_user
enrich cache [] seen = []
enrich cache (s ∷ ss) seen =
    let is_new = has_text s.session_key && not (is_seen s.session_key seen) in
    let previous =
      enrich_previous (remembered (household_user s) cache)
        (if is_new then s.session_key ∷ seen else seen) in
    (if is_new then s ∷ [] else []) ++ (previous.0 ++ enrich cache ss previous.1)

-- The list without its first `n` items.
abbrev pub drop {ℓ} : {A : Type ℓ} → ℕ → List A → List A
drop zero xs = xs
drop (suc n) [] = []
drop (suc n) (x ∷ xs) = drop n xs

-- `cache[user_key] = cache[user_key][-25:]` where it is longer.
unfoldable pub trim_user : String → Recent → Recent
trim_user k [] = []
trim_user k ((j, rs) ∷ cache) =
    if str_eq j k
    then (j, drop (length rs - remembered_sessions) rs) ∷ cache
    else (j, rs) ∷ trim_user k cache

unfoldable pub remember : ℕ → Session → Recent → Recent
unfolding trim_user household_user add_group
remember now s cache =
    trim_user (household_user s)
      (add_group (household_user s) (record { session = s; cache_ts = now }) cache)

unfoldable pub is_duplicate : Addresses → Session → List Session → Bool
unfolding is_probable_same_household
is_duplicate net s [] = false
is_duplicate net s (k ∷ kept) = is_probable_same_household net s k || is_duplicate net s kept

-- The loop over the sessions, with those kept so far.
unfoldable pub merge_households :
    Addresses → ℕ → List Session → List Session → Recent → List Session × Recent
unfolding is_duplicate remember
merge_households net now [] kept cache = (kept, cache)
merge_households net now (s ∷ ss) kept cache =
    let new = not (is_duplicate net s kept) in
    merge_households net now ss (if new then kept ++ s ∷ [] else kept)
      (if new then remember now s cache else cache)

unfoldable pub deduplicate_household_sessions :
    Addresses → ℕ → List Session → Recent → List Session × Recent
unfolding enrich merge_households cleanup_recent_session_cache
deduplicate_household_sessions net now sessions cache =
    let cleaned = cleanup_recent_session_cache now cache in
    merge_households net now (enrich cleaned sessions []) [] cleaned
