-- ===== src/Schema/Name.antt =====
-- quorin/schema.py: `_SCHEMA_NAME_PATTERN` and `FeatureSchema.__init_subclass__`;
-- quorin/shm.py: `_safe_class_name`.
pub mod Sanitize
use quorin.Base.{
  ℕ, ◌-◌, Bool, true, false, not, ◌&&◌, ◌||◌, List, [], ◌∷◌, map, ltb, leb, ◌==◌, if◌then◌else◌,
}
use quorin.Result.{Result, ok, value_error, ◌>>◌, raise_if}
use quorin.Schema.{FeatureSchema, has_duplicate_name, no_fields}

-- `[A-Za-z_]`
unfoldable pub is_name_start : ℕ → Bool
is_name_start c = (leb b'A' c && leb c b'Z') || ((leb b'a' c && leb c b'z') || (c == b'_'))

-- `[A-Za-z0-9_]`
unfoldable pub is_name_char : ℕ → Bool
unfolding is_name_start
is_name_char c = is_name_start c || (leb b'0' c && leb c b'9')

abbrev pub newline : ℕ
newline = 10

-- `[A-Za-z0-9_]{0,n}$`: in Python `$` matches at the end, and before a newline at the end.
unfoldable pub match_rest : ℕ → List ℕ → Bool
unfolding is_name_char
match_rest n [] = true
match_rest n (c ∷ []) = (c == newline) || (ltb 0 n && is_name_char c)
match_rest n (c ∷ d ∷ cs) = ltb 0 n && (is_name_char c && match_rest (n - 1) (d ∷ cs))

-- `_SCHEMA_NAME_PATTERN.match(name)`
unfoldable pub name_matches : List ℕ → Bool
unfolding match_rest
name_matches [] = false
name_matches (c ∷ cs) = is_name_start c && match_rest 62 cs

-- `FeatureSchema.__init_subclass__`, after its `isinstance` tests
unfoldable pub init_subclass : FeatureSchema → Result FeatureSchema
unfolding name_matches
init_subclass s = do
  raise_if (not (name_matches s.name)) value_error
  raise_if (no_fields s.fields) value_error
  raise_if (has_duplicate_name s.fields) value_error
  ok s

-- `re.sub(r"[^A-Za-z0-9_]", "_", name)`
unfoldable pub safe_class_name : List ℕ → List ℕ
unfolding is_name_char
safe_class_name = map (λ c. if is_name_char c then c else b'_')
