-- ===== src/Uuid/Tests.antt =====
-- One identifier, and the theorems of this part at it.
use lisstech_drain_ctl.Prelude.{ℕ, ◌≡◌, refl, List, [], ◌∷◌}
use lisstech_drain_ctl.Uuid.{Uuid, parsed, parse, to_text, IsUuid}
use lisstech_drain_ctl.Uuid.Roundtrip.{parse-to_text}
use lisstech_drain_ctl.Uuid.Accepts.{parse-IsUuid}

abbrev sample : Uuid
sample = 1 ∷ 143 ∷ 59 ∷ 32 ∷ 170 ∷ 16 ∷ 124 ∷ 1 ∷ 157 ∷ 255 ∷ 0 ∷ 1 ∷ 2 ∷ 3 ∷ 4 ∷ 255 ∷ []

-- "018f3b20-aa10-7c01-9dff-0001020304ff"
abbrev sample_text : List ℕ
sample_text =
    48 ∷ 49 ∷ 56 ∷ 102 ∷ 51 ∷ 98 ∷ 50 ∷ 48 ∷ 45 ∷ 97 ∷ 97 ∷ 49 ∷ 48 ∷ 45 ∷ 55 ∷ 99 ∷ 48 ∷ 49 ∷ 45
    ∷ 57 ∷ 100 ∷ 102 ∷ 102 ∷ 45 ∷ 48 ∷ 48 ∷ 48 ∷ 49 ∷ 48 ∷ 50 ∷ 48 ∷ 51 ∷ 48 ∷ 52 ∷ 102 ∷ 102 ∷ []

sample-parsed : parse sample_text ≡ parsed sample
unfolding parse
sample-parsed = refl

sample-parse-IsUuid : IsUuid sample
sample-parse-IsUuid = parse-IsUuid sample_text sample sample-parsed

sample-parse-to_text : parse (to_text sample) ≡ parsed sample
sample-parse-to_text = parse-to_text sample (parse-IsUuid sample_text sample sample-parsed)
