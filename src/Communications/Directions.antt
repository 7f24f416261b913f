-- ===== src/Communications/Directions.antt =====
-- app/core/communication_template_selection.py: the slots of a change of an expiry.
use vodum.Common.{
  ℕ, ◌≡◌, ◌<◌, refl, true, false, some, [], ◌∷◌, sort_by, arith, Bool-cases, inl, inr,
}
use vodum.Communications.Templates.{
  TriggerEvent, Direction, Template, Candidate, Purpose, same_direction, same_slot, ranks_before,
  candidates, best_by_slot, select_best_templates, is_listed_before, direction_rank,
  subscription_scope_rank, provider_rank, expiration_change_direction_rank,
}

candidates_two :
    (p : Purpose) (a b : Template) (sa sb pa pb da db : ℕ)
    → subscription_scope_rank a p.subscription ≡ some sa
    → subscription_scope_rank b p.subscription ≡ some sb
    → provider_rank a.trigger_provider p.provider ≡ some pa
    → provider_rank b.trigger_provider p.provider ≡ some pb
    → direction_rank p a ≡ some da
    → direction_rank p b ≡ some db
    → candidates p (a ∷ b ∷ [])
      ≡ record { template = a; sub_rank = sa; prov_rank = pa; dir_rank = da }
        ∷ record { template = b; sub_rank = sb; prov_rank = pb; dir_rank = db }
        ∷ []
unfolding candidates
candidates_two p a b sa sb pa pb da db ea eb fa fb ga gb = rw (ea, eb, fa, fb, ga, gb) refl

kept_two :
    (e : TriggerEvent) (x y : Candidate)
    → same_slot e x.template y.template ≡ false
    → best_by_slot e [] (x ∷ y ∷ []) ≡ x ∷ y ∷ []
unfolding best_by_slot
kept_two e x y h = rw h refl

listed_two :
    (a b : Template)
    → is_listed_before a b ≡ true
    → is_listed_before b a ≡ false
    → (sort_by is_listed_before (a ∷ b ∷ []) ≡ a ∷ b ∷ [])
      × (sort_by is_listed_before (b ∷ a ∷ []) ≡ a ∷ b ∷ [])
listed_two a b h k = (rw h refl, rw k refl)

rank_general :
    (d : Direction)
    → same_direction d Direction.all_ways ≡ false
    → expiration_change_direction_rank Direction.all_ways (some d) ≡ some 1
unfolding expiration_change_direction_rank
rank_general Direction.all_ways h = absurd (cc)
rank_general Direction.increase h = refl
rank_general Direction.decrease h = refl

rank_exact : (d : Direction) → expiration_change_direction_rank d (some d) ≡ some 2
unfolding expiration_change_direction_rank
rank_exact Direction.all_ways = refl
rank_exact Direction.increase = refl
rank_exact Direction.decrease = refl

one_way-apart :
    (d : Direction)
    → same_direction d Direction.all_ways ≡ false
    → same_direction Direction.all_ways d ≡ false
one_way-apart Direction.all_ways h = h
one_way-apart Direction.increase h = refl
one_way-apart Direction.decrease h = refl

-- For a change of an expiry in one direction, a template for both directions is put before one for
-- that direction with the same days if its key is smaller, although it has the lower rank.
pub general_template_first :
    (p : Purpose) (d : Direction) (a b : Template) (sa sb pa pb : ℕ)
    → p.event ≡ TriggerEvent.expiration_change
    → p.direction ≡ some d
    → same_direction d Direction.all_ways ≡ false
    → a.expiration_change_direction ≡ Direction.all_ways
    → b.expiration_change_direction ≡ d
    → subscription_scope_rank a p.subscription ≡ some sa
    → subscription_scope_rank b p.subscription ≡ some sb
    → provider_rank a.trigger_provider p.provider ≡ some pa
    → provider_rank b.trigger_provider p.provider ≡ some pb
    → a.days_before ≡ b.days_before
    → a.days_after ≡ b.days_after
    → a.id < b.id
    → (direction_rank p a ≡ some 1)
      × (direction_rank p b ≡ some 2)
      × (select_best_templates p (a ∷ b ∷ []) ≡ a ∷ b ∷ [])
unfolding select_best_templates same_slot is_listed_before
general_template_first p d a b sa sb pa pb event direction one_way general exact ea eb fa fb days
      after smaller =
    let ra : direction_rank p a ≡ some 1 =
      rw (event, direction, general) (rank_general d one_way) in
    let rb : direction_rank p b ≡ some 2 = rw (event, direction, exact) (rank_exact d) in
    let x : Candidate = record { template = a; sub_rank = sa; prov_rank = pa; dir_rank = 1 } in
    let y : Candidate = record { template = b; sub_rank = sb; prov_rank = pb; dir_rank = 2 } in
    let apart : same_slot p.event a b ≡ false =
      rw (event, general, exact) (one_way-apart d one_way) in
    let apart' : same_slot p.event b a ≡ false = rw (event, general, exact) one_way in
    let first : is_listed_before a b ≡ true = ground arith in
    let second : is_listed_before b a ≡ false = ground arith in
    let (forward, backward) = listed_two a b first second in
    (
      ra,
      rb,
      rw (candidates_two p a b sa sb pa pb 1 2 ea eb fa fb ra rb)
          (elim (Bool-cases (ranks_before x y)) [
            | inl t ↦ rw (t, kept_two p.event x y apart) forward
            | inr f ↦ rw (f, kept_two p.event y x apart') backward
          ]),
    )
