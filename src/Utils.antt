-- ===== src/Utils.antt =====
-- internal/utils/utils.go: names of the form projectName--shootUID, and the parsing of the openid
-- configuration and of the key set. `strings.TrimSpace` and `strings.Split` are written out.
pub mod Split
pub mod Load
use gardener_discovery_serve.Common.{
  ℕ, Bool, false, ◌&&◌, ◌||◌, List, [], ◌∷◌, reverse, Bytes, ◌==◌, bytes, eqb, leb, if◌then◌else◌,
}
use gardener_discovery_serve.Common.Results.{Result, ok, err}

-- `unicode.IsSpace`, by the bytes of the rune's UTF-8 form
abbrev is_space : ℕ → Bool
is_space a = eqb a 0x20 || (leb 0x09 a && leb a 0x0d)

abbrev is_space₂ : ℕ → ℕ → Bool
is_space₂ a b = eqb a 0xc2 && (eqb b 0x85 || eqb b 0xa0)

abbrev is_space₃ : ℕ → ℕ → ℕ → Bool
is_space₃ a b c =
    (eqb a 0xe1 && eqb b 0x9a && eqb c 0x80)
    || (eqb a 0xe2
        && eqb b 0x80
        && (leb 0x80 c && leb c 0x8a || leb 0xa8 c && leb c 0xa9 || eqb c 0xaf))
    || (eqb a 0xe2 && eqb b 0x81 && eqb c 0x9f)
    || (eqb a 0xe3 && eqb b 0x80 && eqb c 0x80)

-- Drops white space at the front; the tests read one, two or three bytes.
trim_front : (ℕ → ℕ → Bool) → (ℕ → ℕ → ℕ → Bool) → Bytes → Bytes
trim_front two three [] = []
trim_front two three (a ∷ []) = if is_space a then [] else a ∷ []
trim_front two three (a ∷ b ∷ []) =
    let rest = trim_front two three (b ∷ []) in
    if is_space a then rest else if two a b then [] else a ∷ b ∷ []
trim_front two three (a ∷ b ∷ c ∷ s) =
    let after_one = trim_front two three (b ∷ c ∷ s) in
    let after_two = trim_front two three (c ∷ s) in
    let after_three = trim_front two three s in
    if is_space a
    then after_one
    else if two a b
    then after_two
    else if three a b c
    then after_three
    else a ∷ b ∷ c ∷ s

-- `strings.TrimSpace`
unfoldable pub trim_space : Bytes → Bytes
unfolding trim_front
trim_space s =
    let front = trim_front is_space₂ is_space₃ s in
    reverse (trim_front (λ a b. is_space₂ b a) (λ a b c. is_space₃ c b a) (reverse front))

-- `strings.TrimSpace(s) == ""`
unfoldable pub is_blank : Bytes → Bool
unfolding trim_space
is_blank s = trim_space s == []

abbrev push_front : ℕ → List Bytes → List Bytes
push_front c [] = (c ∷ []) ∷ []
push_front c (part ∷ parts) = (c ∷ part) ∷ parts

-- `strings.Split(key, "--")`
unfoldable pub split : Bytes → List Bytes
split [] = [] ∷ []
split (a ∷ []) = (a ∷ []) ∷ []
split (a ∷ b ∷ s) =
    let after = split s in
    let longer = push_front a (split (b ∷ s)) in
    if eqb a b'-' && eqb b b'-' then [] ∷ after else longer

pub data FormatError : Type 0 where
  err_proj_shoot_uid_invalid_format : FormatError

-- the condition of the `if`, on the parts
check_parts : List Bytes → Result FormatError (Bytes × Bytes)
check_parts (project ∷ uid ∷ []) =
    if is_blank project || is_blank uid
    then err err_proj_shoot_uid_invalid_format
    else ok (project, uid)
check_parts _ = err err_proj_shoot_uid_invalid_format

unfoldable pub split_project_name_and_shoot_uid : Bytes → Result FormatError (Bytes × Bytes)
unfolding check_parts
split_project_name_and_shoot_uid key = check_parts (split key)
