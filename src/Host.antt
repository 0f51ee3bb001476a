-- ===== src/Host.antt =====
-- Canonical host names (ValidateCanonicalHost of internal/sessiondata/validation.go).

use lisstech_drain_ctl.Prelude.{
  ℕ, ◌-◌, Bool, true, not, ◌&&◌, ◌||◌, List, [], ◌∷◌, leb, ◌==◌, if◌then◌else◌, length, get_or,
}
use lisstech_drain_ctl.Prelude.Bytes.{bytes_equal}

-- strings.ToLower, strings.TrimSpace, and whether net.ParseIP accepts a text.
pub record GoText : Type 0 where
  pub to_lower : List ℕ → List ℕ
  pub trim_space : List ℕ → List ℕ
  pub is_ip : List ℕ → Bool

abbrev pub first_label : ℕ → List (List ℕ) → List (List ℕ)
first_label c [] = (c ∷ []) ∷ []
first_label c (label ∷ labels) = (c ∷ label) ∷ labels

-- strings.Split(host, "."): '.' is 46.
unfoldable pub split_dots : List ℕ → List (List ℕ)
split_dots [] = [] ∷ []
split_dots (c ∷ cs) =
    let labels = split_dots cs in if c == 46 then [] ∷ labels else first_label c labels

-- '-' is 45, 'a' to 'z' are 97 to 122, '0' to '9' are 48 to 57.
abbrev pub label_char : ℕ → Bool
label_char c = c == 45 || leb 97 c && leb c 122 || leb 48 c && leb c 57

unfoldable pub every : {A : Type 0} → (A → Bool) → List A → Bool
every p [] = true
every p (x ∷ xs) = p x && every p xs

unfoldable pub label_ok : List ℕ → Bool
unfolding every
label_ok label =
    not (length label == 0)
    && leb (length label) 63
    && not (get_or label 0 0 == 45)
    && not (get_or label (length label - 1) 0 == 45)
    && every label_char label

-- ValidateCanonicalHost accepts the host.
unfoldable pub validate_canonical_host : GoText → List ℕ → Bool
unfolding every label_ok split_dots
validate_canonical_host go host =
    leb 1 (length host)
    && leb (length host) 253
    && bytes_equal host (go.to_lower host)
    && bytes_equal (go.trim_space host) host
    && not (go.is_ip host)
    && every label_ok (split_dots host)
