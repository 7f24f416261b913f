-- ===== src/Communications/Choice.antt =====
-- app/core/communication_template_selection.py: the template that each slot gets.
use vodum.Common.{◌≡◌, Bool, false, ◌&&◌, List, [], ◌∷◌, any}
use vodum.Communications.Templates.{TriggerEvent, Candidate, same_slot, ranks_before}

-- The kept candidate `b` is of the slot of `c` and of no lower rank.
abbrev pub is_covered : TriggerEvent → Candidate → List Candidate → Bool
is_covered e c kept =
    any (λ (b : Candidate). same_slot e b.template c.template && ranks_before b c) kept

-- No two are of one slot.
abbrev pub AreApart : TriggerEvent → List Candidate → Type 0
AreApart e [] = Unit
AreApart e (b ∷ bs) =
    (any (λ (d : Candidate). same_slot e b.template d.template) bs ≡ false) × AreApart e bs
