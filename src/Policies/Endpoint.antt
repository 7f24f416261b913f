-- ===== src/Policies/Endpoint.antt =====
-- app/core/stream_session_identity.py, the second part, and stream_media_transition.py: the device
-- and the programme of a session.
use vodum.Common.{
  ℕ, ◌+◌, Bool, true, false, not, ◌&&◌, ◌||◌, none, some, List, [], ◌∷◌, String, str_eq, ◌==◌,
  if◌then◌else◌,
}
use Prim.Native.Char.{code}
use Prim.Native.String.{◌++◌ as str_append}
use vodum.Policies.Scope.{Session, has_text}
use vodum.Policies.Identity.{or_else, time_gap, extract_machine_identifier}

-- `text.strip("|")`
abbrev strip_left : String → String
strip_left String.[] = String.[]
strip_left (String.◌∷◌ c s) = if code c == b'|' then strip_left s else String.◌∷◌ c s

abbrev strip_right : String → String
strip_right String.[] = String.[]
strip_right (String.◌∷◌ c s) =
    let rest = strip_right s in
    if code c == b'|' && not (has_text rest) then String.[] else String.◌∷◌ c rest

abbrev joined : String → String → String
joined a b = str_append a (str_append "|" b)

abbrev pub client_descriptor : Session → String
client_descriptor s =
    strip_right (strip_left (joined s.client_product (joined s.client_name s.device)))

-- The key of the device, and whether it is a strong one.
unfoldable pub session_endpoint_identity : Session → String × Bool
unfolding extract_machine_identifier
session_endpoint_identity s =
    if has_text (extract_machine_identifier s)
    then (str_append "machine:" (extract_machine_identifier s), true)
    else if not (has_text s.ip) || str_eq s.ip "unknown" || not (has_text (client_descriptor s))
    then ("", false)
    else (str_append "client:" (joined s.ip (client_descriptor s)), false)

unfoldable pub session_time_delta_seconds : Session → Session → ℕ
session_time_delta_seconds a b =
    time_gap (or_else a.started_at a.last_seen_at) (or_else b.started_at b.last_seen_at)

-- The empty text comes before every time.
abbrev pub session_sort_key : Session → ℕ
session_sort_key s = elim (or_else s.last_seen_at s.started_at) [ none ↦ 0 | some t ↦ t + 1 ]

unfoldable pub media_family_key : Session → String
media_family_key s =
    if (str_eq s.media_type "episode" || str_eq s.media_type "series" || str_eq s.media_type "show")
      && has_text s.grandparent_title
    then str_append "series:" s.grandparent_title
    else if (str_eq s.media_type "movie" || str_eq s.media_type "film") && has_text s.title
    then str_append "movie:" s.title
    else if has_text s.grandparent_title
    then str_append "series:" s.grandparent_title
    else if has_text s.media_key
    then str_append "key:" s.media_key
    else if has_text s.parent_title && has_text s.title
    then str_append "parent_title:" (str_append s.parent_title (str_append ":" s.title))
    else if has_text s.title
    then str_append "title:" s.title
    else ""

-- The sessions with a family are at least one, and all of the same.
abbrev is_family : String → List Session → Bool
unfolding media_family_key
is_family k [] = true
is_family k (s ∷ ss) =
    (not (has_text (media_family_key s)) || str_eq (media_family_key s) k) && is_family k ss

-- `len({family of each session} - {""}) == 1`
unfoldable pub is_coherent_media_transition : List Session → Bool
unfolding media_family_key is_family
is_coherent_media_transition [] = false
is_coherent_media_transition (s ∷ ss) =
    let rest = is_coherent_media_transition ss in
    if has_text (media_family_key s) then is_family (media_family_key s) ss else rest
