-- ===== src/Jellyfin/Requests.antt =====
-- app/tasks/apply_jellyfin_access_updates.py: the requests to the server, which answers as it likes.
use vodum.Common.{
  ℕ, ◌==◌, Bool, false, ◌&&◌, ◌||◌, Option, none, some, List, [], ◌∷◌, ◌++◌, String, ltb, leb,
  length, if◌then◌else◌,
}

-- What is read and written of the policy of a user on the server; `rest` stands for the other keys.
pub record UserAccess : Type 0 where
  pub enable_all_folders : Option Bool
  pub enabled_folders : Option (List ℕ)
  pub rest : ℕ

pub data Call : Type 0 where
  get_user : ℕ → ℕ → Call
  post_policy put_policy : ℕ → ℕ → UserAccess → Call

-- The code with the policy in the body, if there is one, or an exception that is no HTTPError.
pub data Reply : Type 0 where
  answered : ℕ → Option UserAccess → Reply
  broken : Reply

pub data Failure : Type 0 where
  invalid_job no_server no_url no_token connection : Failure
  http : ℕ → Failure

-- The server answers by the number of requests before; `describe` is the text of an exception.
pub record Jellyfin : Type 0 where
  pub answer : ℕ → Call → Reply
  pub describe : Failure → String

-- none where nothing was raised.
abbrev pub raise_for_status : ℕ → Option Failure
raise_for_status code = if leb 400 code && ltb code 600 then some (http code) else none

abbrev pub fails : Reply → Option Failure
fails broken = some connection
fails (answered code body) = raise_for_status code

-- `self.post`, and `put` where the server does not take it.
unfoldable pub set_policy : Jellyfin → ℕ → ℕ → UserAccess → List Call → Option Failure × List Call
set_policy jf server user access calls =
    let post = calls ++ post_policy server user access ∷ [] in
    let put = post ++ put_policy server user access ∷ [] in
    elim (jf.answer (length calls) (post_policy server user access)) [
      | broken ↦ (some connection, post)
      | answered code body ↦
          if code == 405 || code == 415
          then (fails (jf.answer (length post) (put_policy server user access)), put)
          else (raise_for_status code, post)
    ]

abbrev pub restrict : List ℕ → UserAccess → UserAccess
restrict folders access = record access {
  enable_all_folders = some false;
  enabled_folders = some folders;
}

-- A user object that is no JSON object raises something else than an HTTPError.
unfoldable pub apply_policy_enabled_folders :
    Jellyfin → ℕ → ℕ → List ℕ → List Call → Option Failure × List Call
apply_policy_enabled_folders jf server user folders calls =
    let asked = calls ++ get_user server user ∷ [] in
    elim (jf.answer (length calls) (get_user server user)) [
      | broken ↦ (some connection, asked)
      | answered code body ↦ elim (raise_for_status code) [
        | some f ↦ (some f, asked)
        | none ↦ elim body [
          | none ↦ (some connection, asked)
          | some access ↦ set_policy jf server user (restrict folders access) asked
        ]
      ]
    ]
