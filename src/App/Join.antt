-- ===== src/App/Join.antt =====
-- src/dynamokv/main.py: CLUSTER_NODES, written and read again.
use secure_dynamo_kv_store.Prelude.{◌≡◌, String, false, List, [], ◌∷◌}
use Prim.Native.String
use secure_dynamo_kv_store.App.Text.{is_blank, strip, is_comma}

-- ",".join(names)
unfoldable pub join_commas : List String → String
join_commas [] = String.[]
join_commas (n ∷ []) = n
join_commas (n ∷ m ∷ names) = String.◌++◌ n (String.◌∷◌ "," (join_commas (m ∷ names)))

abbrev pub NoComma : String → Type 0
NoComma String.[] = Unit {0}
NoComma (String.◌∷◌ c s) = (is_comma c ≡ false) × NoComma s

-- A name that can be listed: no comma, no blanks around it, and not empty.
abbrev pub IsName : String → Type 0
IsName n = NoComma n × (strip n ≡ n) × (is_blank n ≡ false)
