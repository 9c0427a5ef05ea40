-- ===== src/App/Mux.antt =====
-- What cmd/discovery-server/app/app.go uses of `http.ServeMux`: patterns of literal segments and
-- `{name}` segments, and the pattern "/". A path is the list of its segments, unescaped, and a path that
-- ends in a slash has an empty last segment. net/http redirects a path with an empty segment inside,
-- or with a `.` or `..` that is spelled out, to the clean path before it looks for a handler: such a
-- segment in these lists is one that the client has escaped.
use mathlib.Core.Option
use gardener_discovery_serve.Common.{
  ℕ, Bool, false, ◌||◌, Option, none, some, List, [], ◌∷◌, Bytes, ◌==◌, eqb, if◌then◌else◌, Map,
  insert,
}

pub data Segment : Type 0 where
  literal : Bytes → Segment
  wildcard : Bytes → Segment

-- A segment before the last is empty.
abbrev pub has_gap : List Bytes → Bool
has_gap [] = false
has_gap (s ∷ []) = false
has_gap (s ∷ t ∷ path) = let later = has_gap (t ∷ path) in s == [] || later

-- the slash between two segments
abbrev is_slash : ℕ → Bool
is_slash c = eqb c 47

abbrev push_front : ℕ → List Bytes → List Bytes
push_front c [] = (c ∷ []) ∷ []
push_front c (part ∷ parts) = (c ∷ part) ∷ parts

unfoldable pub split_slash : Bytes → List Bytes
split_slash [] = [] ∷ []
split_slash (c ∷ s) =
    let parts = split_slash s in if is_slash c then [] ∷ parts else push_front c parts

-- the text up to the brace that closes it
unfoldable pub until_brace : Bytes → Bytes
until_brace [] = []
until_brace (c ∷ s) = let rest = until_brace s in if eqb c 125 then [] else c ∷ rest

abbrev pub to_segment : Bytes → Segment
to_segment [] = literal []
to_segment (c ∷ s) = if eqb c 123 then wildcard (until_brace s) else literal (c ∷ s)

abbrev pub to_segments : List Bytes → List Segment
to_segments [] = []
to_segments (part ∷ parts) = to_segment part ∷ to_segments parts

abbrev drop_first : List Bytes → List Bytes
drop_first [] = []
drop_first (part ∷ parts) = parts

-- A pattern starts with a slash.
unfoldable pub parse_pattern : Bytes → List Segment
unfolding split_slash until_brace
parse_pattern s = to_segments (drop_first (split_slash s))

-- The values of the wildcards, if the pattern matches the path. No wildcard matches nothing.
unfoldable pub match_path : List Segment → List Bytes → Option (Map Bytes)
match_path [] [] = some []
match_path [] (s ∷ path) = none
match_path (p ∷ pattern_rest) [] = none
match_path (literal l ∷ pattern_rest) (s ∷ path) =
    if l == s then match_path pattern_rest path else none
match_path (wildcard name ∷ pattern_rest) (s ∷ path) =
    if s == [] then none else Option.map (insert name s) (match_path pattern_rest path)

-- The patterns with their handlers, and the handler of "/", which matches every path and is the least
-- specific of all. No two of the patterns match one path, so that their order is of no account.
pub record ServeMux (H : Type 0) : Type 0 where
  pub patterns : List (Bytes × H)
  pub root : H

module _ {H : Type 0} where
  abbrev pub or_else : Option (Map Bytes × H) → Map Bytes × H → Map Bytes × H
  or_else none other_handler = other_handler
  or_else (some found) other_handler = found

  abbrev with_handler : H → Option (Map Bytes) → Option (Map Bytes × H)
  with_handler h = Option.map λ values. (values, h)

  -- the first match, for the one match there is
  abbrev pub first_some : Option (Map Bytes × H) → Option (Map Bytes × H) → Option (Map Bytes × H)
  first_some none later = later
  first_some (some found) later = some found

  unfoldable pub find_pattern : List (Bytes × H) → List Bytes → Option (Map Bytes × H)
  unfolding match_path parse_pattern
  find_pattern [] path = none
  find_pattern ((text, h) ∷ patterns) path =
      first_some (with_handler h (match_path (parse_pattern text) path))
        (find_pattern patterns path)

  -- The values of the wildcards and the handler that `ServeHTTP` calls.
  unfoldable pub find_handler : ServeMux H → List Bytes → Map Bytes × H
  unfolding find_pattern
  find_handler mux path = or_else (find_pattern mux.patterns path) ([], mux.root)
