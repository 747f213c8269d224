-- ===== src/Schema/Name/Sanitize.antt =====
-- What `_safe_class_name` does to the names that the pattern of quorin/schema.py accepts.
use quorin.Base.{
  ℕ, ◌-◌, ◌<◌, ◌≡◌, refl, arith, true, List, [], ◌∷◌, ◌++◌, ◌⊎◌, inl, inr, ◌==◌, ==→eq, Bool-cases,
  length, All,
}
use quorin.Schema.Name.{
  is_name_start, is_name_char, newline, match_rest, name_matches, safe_class_name,
}

-- A name that is kept, or one whose last newline becomes an underscore.
abbrev pub KeptOrTrimmed : List ℕ → Type 0
KeptOrTrimmed cs =
    (safe_class_name cs ≡ cs)
    ⊎ ((m : List ℕ) × (cs ≡ m ++ newline ∷ []) × (safe_class_name cs ≡ m ++ b'_' ∷ []))

extend : (c : ℕ) (cs : List ℕ) → is_name_char c ≡ true → KeptOrTrimmed cs → KeptOrTrimmed (c ∷ cs)
unfolding safe_class_name
extend c cs h (inl e) = inl (ground (arith, e))
extend c cs h (inr (m, e, s)) = inr (c ∷ m, ground (arith, e), ground (arith, s))

match_rest-KeptOrTrimmed : (n : ℕ) (cs : List ℕ) → match_rest n cs ≡ true → KeptOrTrimmed cs
unfolding match_rest safe_class_name
match_rest-KeptOrTrimmed n [] h = inl refl
match_rest-KeptOrTrimmed n (c ∷ []) h = elim (Bool-cases (c == newline)) [
  | inl e ↦ inr ([], ground (arith, ==→eq c newline e), rw (==→eq c newline e))
  | inr e ↦ inl (ground arith)
]
match_rest-KeptOrTrimmed n (c ∷ d ∷ cs) h =
    extend c (d ∷ cs) (ground arith) (match_rest-KeptOrTrimmed (n - 1) (d ∷ cs) (ground arith))

start-is_name_char : (c : ℕ) → is_name_start c ≡ true → is_name_char c ≡ true
unfolding is_name_char
start-is_name_char c h = ground arith

-- Of an accepted class name, the sanitized name is the name itself; only a newline at the end,
-- which the pattern lets through, is rewritten, to an underscore.
pub safe-name_matches : (name : List ℕ) → name_matches name ≡ true → KeptOrTrimmed name
unfolding name_matches
safe-name_matches [] h = cc
safe-name_matches (c ∷ cs) h =
    extend c cs (start-is_name_char c (ground arith))
      (match_rest-KeptOrTrimmed 62 cs (ground arith))

match_rest-last :
    (n : ℕ) (cs : List ℕ)
    → All (λ c. is_name_char c ≡ true) cs
    → length cs < n
    → (match_rest n (cs ++ newline ∷ []) ≡ true) × (match_rest n (cs ++ b'_' ∷ []) ≡ true)
unfolding match_rest
match_rest-last n [] h lt = (refl, ground arith)
match_rest-last n (c ∷ []) h lt = (ground arith, ground arith)
match_rest-last n (c ∷ d ∷ cs) h lt =
    let (p, q) = match_rest-last (n - 1) (d ∷ cs) h.1 (omega arith) in
    (ground (arith, p), ground (arith, q))

safe-last : (cs : List ℕ) → safe_class_name (cs ++ newline ∷ []) ≡ safe_class_name (cs ++ b'_' ∷ [])
unfolding safe_class_name
safe-last [] = refl
safe-last (c ∷ cs) = rw (safe-last cs)

-- Two different names that the pattern accepts, and that sanitize to one: any name of at most 62
-- name characters with a newline, or with an underscore, behind it.
pub safe_class_name_collision :
    (c : ℕ) (cs : List ℕ)
    → is_name_start c ≡ true
    → All (λ d. is_name_char d ≡ true) cs
    → length cs < 62
    → (name_matches ((c ∷ cs) ++ newline ∷ []) ≡ true)
      × (name_matches ((c ∷ cs) ++ b'_' ∷ []) ≡ true)
      × (safe_class_name ((c ∷ cs) ++ newline ∷ []) ≡ safe_class_name ((c ∷ cs) ++ b'_' ∷ []))
unfolding name_matches
safe_class_name_collision c cs start rest short =
    let (p, q) = match_rest-last 62 cs rest short in
    (ground (arith, p), ground (arith, q), safe-last (c ∷ cs))
