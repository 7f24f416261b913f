-- ===== src/Jellyfin/Folders.antt =====
-- app/tasks/apply_jellyfin_access_updates.py: which folders a user is to see on a server.
use vodum.Common.{
  ℕ, ◌==◌, ◌≡◌, ◌≤◌, refl, Bool, true, false, ◌&&◌, List, [], ◌∷◌, any, any-sort_by, leb,
  count_rows, where_rows, sort_by, arith, ◌∙◌, subst, Bool-cases, inl, inr,
}
use vodum.Media.{equals}
use vodum.Subscriptions.Expiry.{Link}
use vodum.Jellyfin.{
  JellyfinAccount, Section, Access, get_jellyfin_accounts, is_shared_with, section_ids, distinct,
  get_desired_enabled_folders,
}

-- The account is one of the user on the server, and the link leads from it to the library.
abbrev pub leads : ℕ → ℕ → Section → Link → JellyfinAccount → Bool
leads user server l k a =
    k.library_id == l.library_id
    && (a.id == k.media_user_id
        && (a.vodum_user_id == user && (a.server_id == server && a.is_jellyfin)))

-- Some library of the server has this section and some link of the user leads to it.
abbrev pub is_wanted : ℕ → ℕ → Access → ℕ → Bool
is_wanted user server s i =
    any
      (λ (l : Section).
        equals l.section_id i
        && (l.server_id == server
            && any (λ (k : Link). any (leads user server l k) s.accounts) s.links))
      s.sections

any-distinct : (i : ℕ) (is : List ℕ) → any (λ j. j == i) (distinct is) ≡ any (λ j. j == i) is
any-distinct i [] = refl
any-distinct i (j ∷ js) = elim (Bool-cases (any (λ n. n == j) js)) [
  | inr new ↦ rw new (ground (arith, any-distinct i js))
  | inl again ↦ elim (Bool-cases (j == i)) [
    | inr other ↦ rw again (ground (arith, any-distinct i js, other))
    | inl same ↦
        let there : any (λ n. n == i) js ≡ true =
          subst (λ m. any (λ n. n == m) js ≡ true) (ground (arith, same)) again in
        rw again (ground (arith, any-distinct i js, there, same))
  ]
]

count-none : (i : ℕ) (is : List ℕ) → any (λ j. j == i) is ≡ false → count_rows (λ j. j == i) is ≡ 0
count-none i [] h = refl
count-none i (j ∷ js) h = ground (arith, h, count-none i js)

count-distinct : (i : ℕ) (is : List ℕ) → count_rows (λ j. j == i) (distinct is) ≤ 1
count-distinct i [] = omega arith
count-distinct i (j ∷ js) = elim (Bool-cases (any (λ n. n == j) js)) [
  | inl again ↦ rw again (count-distinct i js)
  | inr new ↦ elim (Bool-cases (j == i)) [
    | inr other ↦ rw (new, other) (omega (arith, count-distinct i js))
    | inl same ↦
        let gone : any (λ n. n == i) (distinct js) ≡ false =
          any-distinct i js
          ∙ subst (λ m. any (λ n. n == m) js ≡ false) (ground (arith, same)) new in
        rw (new, same) (ground (arith, count-none i (distinct js) gone))
  ]
]

any-section_ids :
    (i : ℕ) (ls : List Section)
    → any (λ j. j == i) (section_ids ls) ≡ any (λ (l : Section). equals l.section_id i) ls
any-section_ids i [] = refl
any-section_ids i (l ∷ ls) = ground (arith, any-section_ids i ls)

account-leads :
    (user server : ℕ) (l : Section) (k : Link) (accounts : List JellyfinAccount)
    → (k.library_id == l.library_id
        && any
            (λ (a : JellyfinAccount). a.id == k.media_user_id)
            (where_rows
              (λ (a : JellyfinAccount).
                a.vodum_user_id == user && a.server_id == server && a.is_jellyfin)
              accounts))
      ≡ any (leads user server l k) accounts
account-leads user server l k [] = ground arith
account-leads user server l k (a ∷ rest) = ground (arith, account-leads user server l k rest)

link-leads :
    (user server : ℕ) (s : Access) (l : Section) (links : List Link)
    → any
        (λ (k : Link).
          k.library_id == l.library_id
          && any
              (λ (a : JellyfinAccount). a.id == k.media_user_id)
              (get_jellyfin_accounts user server s))
        links
      ≡ any (λ (k : Link). any (leads user server l k) s.accounts) links
unfolding get_jellyfin_accounts
link-leads user server s l [] = refl
link-leads user server s l (k ∷ ks) =
    rw (account-leads user server l k s.accounts, link-leads user server s l ks) refl

any-shared :
    (user server i : ℕ) (s : Access) (ls : List Section)
    → any (λ (l : Section). equals l.section_id i) (where_rows (is_shared_with user server s) ls)
      ≡ any
          (λ (l : Section).
            equals l.section_id i
            && (l.server_id == server
                && any (λ (k : Link). any (leads user server l k) s.accounts) s.links))
          ls
any-shared user server i s [] = refl
any-shared user server i s (l ∷ ls) =
    ground (arith, link-leads user server s l s.links, any-shared user server i s ls)

-- The folders that the server is to be told are those of the libraries that a link of one of the user's
-- accounts there leads to, each of them once.
pub get_desired_enabled_folders_lem :
    (user server : ℕ) (s : Access) (i : ℕ)
    → (any (λ n. n == i) (get_desired_enabled_folders user server s) ≡ is_wanted user server s i)
      × (count_rows (λ n. n == i) (get_desired_enabled_folders user server s) ≤ 1)
unfolding get_desired_enabled_folders
get_desired_enabled_folders_lem user server s i =
    let ids = section_ids (where_rows (is_shared_with user server s) s.sections) in
    (
      any-distinct i (sort_by leb ids)
          ∙ any-sort_by (λ n. n == i) leb ids
          ∙ any-section_ids i (where_rows (is_shared_with user server s) s.sections)
          ∙ any-shared user server i s s.sections,
      count-distinct i (sort_by leb ids),
    )
