-- ===== src/Generation/Tests.antt =====
-- The identifier after one, and the theorem of this part at it.
use lisstech_drain_ctl.Prelude.{ℕ, ◌≡◌, refl, some, List, [], ◌∷◌}
use lisstech_drain_ctl.Prelude.Int.{pos}
use lisstech_drain_ctl.Uuid.{Uuid, parsed, parse, compare_uuid, IsUuid}
use lisstech_drain_ctl.Uuid.Accepts.{parse-IsUuid}
use lisstech_drain_ctl.Generation.{next}
use lisstech_drain_ctl.Generation.Next.{next_later}

abbrev before : Uuid
before = 1 ∷ 143 ∷ 59 ∷ 32 ∷ 170 ∷ 16 ∷ 124 ∷ 1 ∷ 157 ∷ 255 ∷ 0 ∷ 1 ∷ 2 ∷ 3 ∷ 4 ∷ 255 ∷ []

abbrev after : Uuid
after = 1 ∷ 143 ∷ 59 ∷ 32 ∷ 170 ∷ 16 ∷ 124 ∷ 1 ∷ 157 ∷ 255 ∷ 0 ∷ 1 ∷ 2 ∷ 3 ∷ 5 ∷ 0 ∷ []

-- "018f3b20-aa10-7c01-9dff-0001020304ff"
abbrev before_text : List ℕ
before_text =
    48 ∷ 49 ∷ 56 ∷ 102 ∷ 51 ∷ 98 ∷ 50 ∷ 48 ∷ 45 ∷ 97 ∷ 97 ∷ 49 ∷ 48 ∷ 45 ∷ 55 ∷ 99 ∷ 48 ∷ 49 ∷ 45
    ∷ 57 ∷ 100 ∷ 102 ∷ 102 ∷ 45 ∷ 48 ∷ 48 ∷ 48 ∷ 49 ∷ 48 ∷ 50 ∷ 48 ∷ 51 ∷ 48 ∷ 52 ∷ 102 ∷ 102 ∷ []

before-parsed : parse before_text ≡ parsed before
unfolding parse
before-parsed = refl

before-next : next before ≡ some after
unfolding next
before-next = refl

carried-next_later : IsUuid after × (compare_uuid after before ≡ pos 1)
carried-next_later =
    next_later before after (parse-IsUuid before_text before before-parsed) before-next
