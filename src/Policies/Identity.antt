-- ===== src/Policies/Identity.antt =====
-- app/core/stream_session_identity.py, the first part: when two sessions are taken for one
-- household. Python's `ipaddress` is the parameter `Addresses`.
use vodum.Common.{
  ℕ, zero, suc, ◌+◌, ◌-◌, Bool, true, false, not, ◌&&◌, ◌||◌, Option, none, some, List, [], ◌∷◌,
  String, str_eq, ltb, leb, ◌==◌, if◌then◌else◌,
}
use Prim.Native.Char.{Char, code}
use vodum.Policies.Scope.{Session, has_text}

-- `ip_address(ip).version`, and whether the address is private, loopback or link-local; what is no
-- address has neither.
pub record Addresses : Type 0 where
  pub version : String → Option ℕ
  pub is_private : String → Bool

-- `is_local_ip`, of app/core/stream_policy_utils.py.
unfoldable pub is_local_ip : Addresses → String → Bool
is_local_ip net ip = if not (has_text ip) || str_eq ip "unknown" then false else net.is_private ip

abbrev pub household_transition_seconds : ℕ
household_transition_seconds = 90

abbrev pub household_device_match_score : ℕ
household_device_match_score = 5

-- `a or b`
abbrev pub or_else : Option ℕ → Option ℕ → Option ℕ
or_else none b = b
or_else (some t) b = some t

-- `int(abs(a - b)) if a and b else 999999`
abbrev pub time_gap : Option ℕ → Option ℕ → ℕ
time_gap (some t) (some u) = if ltb t u then u - t else t - u
time_gap _ _ = 999999

unfoldable pub seconds_between_sessions : Session → Session → ℕ
seconds_between_sessions a b =
    time_gap (or_else a.last_seen_at a.started_at) (or_else b.last_seen_at b.started_at)

abbrev pub is_shared : String → String → Bool
is_shared a b = has_text a && has_text b && str_eq a b

unfoldable pub same_media_family : Session → Session → Bool
same_media_family a b =
    is_shared a.grandparent_title b.grandparent_title || is_shared a.title b.title

-- The first value that is not empty.
abbrev first_text : List String → String
first_text [] = ""
first_text (t ∷ ts) = if has_text t then t else first_text ts

unfoldable pub extract_machine_identifier : Session → String
extract_machine_identifier s = first_text s.machine_ids

abbrev push_first : Char → List String → List String
push_first c [] = String.◌∷◌ c String.[] ∷ []
push_first c (t ∷ ts) = String.◌∷◌ c t ∷ ts

-- `text.split(sep)`, for a separator of one character.
abbrev split : ℕ → String → List String
split sep String.[] = "" ∷ []
split sep (String.◌∷◌ c s) = if code c == sep then "" ∷ split sep s else push_first c (split sep s)

-- `a[:n] == b[:n]`
abbrev same_prefix : ℕ → List String → List String → Bool
same_prefix zero ts us = true
same_prefix (suc n) [] [] = true
same_prefix (suc n) [] (u ∷ us) = false
same_prefix (suc n) (t ∷ ts) [] = false
same_prefix (suc n) (t ∷ ts) (u ∷ us) = str_eq t u && same_prefix n ts us

unfoldable pub same_subnet : Addresses → String → String → Bool
same_subnet net a b = elim (net.version a) [
  | none ↦ false
  | some v ↦ elim (net.version b) [
    | none ↦ false
    | some w ↦
        if not (v == w)
        then false
        else if v == 4
        then same_prefix 3 (split b'.' a) (split b'.' b)
        else same_prefix 4 (split b':' a) (split b':' b)
  ]
]

abbrev address_score : Addresses → String → String → ℕ
address_score net a b =
    if is_shared a b then 10 else if has_text a && has_text b && same_subnet net a b then 4 else 0

unfoldable pub household_match_score : Addresses → Session → Session → ℕ
unfolding extract_machine_identifier same_media_family seconds_between_sessions
household_match_score net a b =
    address_score net a.ip b.ip
    + (if is_shared (extract_machine_identifier a) (extract_machine_identifier b) then 10 else 0)
    + (if has_text a.device && str_eq a.device b.device then 3 else 0)
    + (if has_text a.client_product && str_eq a.client_product b.client_product then 2 else 0)
    + (if same_media_family a b then 2 else 0)
    + (if leb (seconds_between_sessions a b) household_transition_seconds then 3 else 0)

unfoldable pub is_probable_same_household : Addresses → Session → Session → Bool
unfolding household_match_score
is_probable_same_household net a b =
    leb household_device_match_score (household_match_score net a b)
