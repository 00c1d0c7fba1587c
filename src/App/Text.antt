-- ===== src/App/Text.antt =====
-- src/dynamokv/main.py: `str.strip` and `str.split`, which CLUSTER_NODES goes through.
use secure_dynamo_kv_store.Prelude.{
  ℕ, String, nat_eq, Bool, true, false, ◌&&◌, List, [], ◌∷◌, leb, ◌==◌, if◌then◌else◌,
}
use Prim.Native.Char.{Char, code}

-- What `str.strip` takes off: the characters for which `str.isspace` holds.
abbrev pub between : ℕ → ℕ → ℕ → Bool
between a b c = leb a c && leb c b

abbrev pub is_space : Char → Bool
is_space c =
    if between 9 13 (code c)
    then true
    else if between 28 32 (code c)
    then true
    else if between 8192 8202 (code c)
    then true
    else if between 8232 8233 (code c)
    then true
    else if code c == 133
    then true
    else if code c == 160
    then true
    else if code c == 5760
    then true
    else if code c == 8239
    then true
    else if code c == 8287
    then true
    else code c == 12288

unfoldable pub lstrip : String → String
lstrip String.[] = String.[]
lstrip (String.◌∷◌ c s) = let rest = lstrip s in if is_space c then rest else String.◌∷◌ c s

abbrev pub is_blank : String → Bool
is_blank String.[] = true
is_blank (String.◌∷◌ c s) = false

-- A character in front of a text that is stripped at its end.
abbrev pub before : Char → String → String
before c rest = if is_blank rest && is_space c then String.[] else String.◌∷◌ c rest

unfoldable pub rstrip : String → String
rstrip String.[] = String.[]
rstrip (String.◌∷◌ c s) = before c (rstrip s)

unfoldable pub strip : String → String
strip s = rstrip (lstrip s)

abbrev pub is_comma : Char → Bool
is_comma c = code c == 44

abbrev pub first_piece : Char → List String → List String
first_piece c [] = String.◌∷◌ c String.[] ∷ []
first_piece c (piece ∷ pieces) = String.◌∷◌ c piece ∷ pieces

-- text.split(",")
unfoldable pub split_commas : String → List String
split_commas String.[] = String.[] ∷ []
split_commas (String.◌∷◌ c s) =
    let rest = split_commas s in if is_comma c then String.[] ∷ rest else first_piece c rest
