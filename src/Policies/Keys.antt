-- ===== src/Policies/Keys.antt =====
-- The keys that sessions are grouped by and that the graces are kept under: `normalize_user_key` of
-- app/core/stream_policy_utils.py, `_grace_key` of stream_sync_dedupe.py and `ip_grace_key` of
-- stream_media_transition.py. Each is a record in place of a tuple or a text.
use vodum.Common.{
  ℕ, Bool, true, false, ◌&&◌, ◌↔◌, ◌≡◌, Option, none, some, List, [], ◌∷◌, map, String, str_eq,
  ◌==◌, eq_iff, if◌then◌else◌, Key, arith, ==_iff,
}
use vodum.Policies.Scope.{Session}
use vodum.Policies.Endpoint.{media_family_key}

-- The actor of a session, and its server where each is counted for itself.
pub record UserKey : Type 0 where
  pub vodum_user_id : Option ℕ
  pub external_user_id : String
  pub server_id : Option ℕ

abbrev pub same_number : Option ℕ → Option ℕ → Bool
same_number none none = true
same_number none (some n) = false
same_number (some m) none = false
same_number (some m) (some n) = m == n

abbrev pub same_key : UserKey → UserKey → Bool
same_key a b =
    same_number a.vodum_user_id b.vodum_user_id
    && str_eq a.external_user_id b.external_user_id
    && same_number a.server_id b.server_id

pub same_number_iff : (a b : Option ℕ) → (same_number a b ≡ true) ↔ (a ≡ b)
same_number_iff none none = ground arith
same_number_iff none (some n) = ground arith
same_number_iff (some m) none = ground arith
same_number_iff (some m) (some n) = ground (arith, ==_iff m n)

pub same_key_iff : (a b : UserKey) → (same_key a b ≡ true) ↔ (a ≡ b)
same_key_iff a b = ground (
  arith,
  same_number_iff a.vodum_user_id b.vodum_user_id,
  eq_iff a.external_user_id b.external_user_id,
  same_number_iff a.server_id b.server_id,
)

instance abbrev pub user_keys : Key UserKey
user_keys = record { same = same_key; same_iff = same_key_iff }

instance abbrev pub number_keys : Key ℕ
number_keys = record { same = ◌==◌; same_iff = ==_iff }

instance abbrev pub text_keys : Key String
text_keys = record { same = str_eq; same_iff = eq_iff }

-- `normalize_user_key(session)`
abbrev pub normalize_user_key : Session → UserKey
normalize_user_key s = record {
  vodum_user_id = s.vodum_user_id;
  external_user_id = s.external_user_id;
  server_id = none;
}

-- A part of a key: of the server, the session, the address and the family.
pub record Part : Type 0 where
  pub server_id : ℕ
  pub session_key : String
  pub ip : String
  pub family : String

abbrev pub same_part : Part → Part → Bool
same_part a b =
    a.server_id == b.server_id
    && str_eq a.session_key b.session_key
    && str_eq a.ip b.ip
    && str_eq a.family b.family

abbrev take_part : Part → List Part → Option (List Part)
take_part a [] = none
take_part a (b ∷ bs) =
    if same_part b a
    then some bs
    else elim (take_part a bs) [ none ↦ none | some rest ↦ some (b ∷ rest) ]

-- The sorted parts of both are the same.
abbrev pub same_parts : List Part → List Part → Bool
same_parts [] [] = true
same_parts [] (b ∷ bs) = false
same_parts (a ∷ rest) bs = elim (take_part a bs) [
  | none ↦ false
  | some others ↦ same_parts rest others
]

pub record GraceKey : Type 0 where
  pub policy_id : ℕ
  pub user_key : UserKey
  pub endpoint : String
  pub parts : List Part

abbrev pub same_grace : GraceKey → GraceKey → Bool
same_grace a b =
    a.policy_id == b.policy_id
    && same_key a.user_key b.user_key
    && str_eq a.endpoint b.endpoint
    && same_parts a.parts b.parts

abbrev pub grace_key : ℕ → UserKey → String → List Session → GraceKey
unfolding media_family_key
grace_key policy_id user_key endpoint sessions = record {
  policy_id = policy_id;
  user_key = user_key;
  endpoint = endpoint;
  parts =
      map
        (λ (s : Session). record {
          server_id = s.server_id;
          session_key = s.session_key;
          ip = "";
          family = media_family_key s;
        })
        sessions;
}

abbrev pub ip_grace_key : ℕ → UserKey → List Session → GraceKey
unfolding media_family_key
ip_grace_key policy_id user_key sessions = record {
  policy_id = policy_id;
  user_key = user_key;
  endpoint = "";
  parts =
      map
        (λ (s : Session). record {
          server_id = s.server_id;
          session_key = s.session_key;
          ip = s.ip;
          family = media_family_key s;
        })
        sessions;
}
