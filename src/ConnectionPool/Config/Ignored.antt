-- ===== src/ConnectionPool/Config/Ignored.antt =====
-- Lines that leave the configuration as it is.
use cpp_toy.Base.{
  ℕ, ◌≡◌, refl, List, [], ◌∷◌, none, some, Outcome, ok, fail, ◌>>=◌, length, ◌==◌, false, arith,
}
use cpp_toy.ConnectionPool.Config.{
  Config, field_of, split, load_pair, load_line, load_lines, assign,
}

-- A line without "=", such as most comments, or with a key that is none of the names.
pub data IsIgnored (line : List ℕ) : Type 0 where
  no_equals : split line ≡ none → IsIgnored line
  other_key :
      (key value : List ℕ) → split line ≡ some (key, value) → field_of key ≡ none → IsIgnored line

-- The second list is the first without some of its ignored lines.
pub data Pads : List (List ℕ) → List (List ℕ) → Type 0 where
  nothing : Pads [] []
  keeps : (line : List ℕ) {xs ys : List (List ℕ)} → Pads xs ys → Pads (line ∷ xs) (line ∷ ys)
  skips :
      (line : List ℕ) {xs ys : List (List ℕ)} → IsIgnored line → Pads xs ys → Pads (line ∷ xs) ys

ignored-load_pair : (line : List ℕ) (c : Config) → IsIgnored line → load_pair (split line) c ≡ ok c
unfolding load_pair assign
ignored-load_pair line c (no_equals e) = rw e refl
ignored-load_pair line c (other_key key value e f) = rw (e, f) refl

pub ignored-load : (line : List ℕ) (c : Config) → IsIgnored line → load_line line c ≡ ok c
unfolding load_line
ignored-load [] c h = refl
ignored-load (x ∷ xs) c h = rw not_empty (ignored-load_pair (x ∷ xs) c h)
  where
    not_empty : (length (x ∷ xs) == 0) ≡ false
    not_empty = ground arith

same_rest :
    (xs ys : List (List ℕ)) (o : Outcome Config)
    → ((c : Config) → load_lines xs c ≡ load_lines ys c)
    → (o >>= λ c'. load_lines xs c') ≡ (o >>= λ c'. load_lines ys c')
same_rest xs ys (ok c') same = same c'
same_rest xs ys (fail e) same = refl

-- Wherever ignored lines stand among others, the configuration is loaded, or its loading fails, as
-- without them.
pub load_lines-Pads :
    {xs ys : List (List ℕ)} → Pads xs ys → (c : Config) → load_lines xs c ≡ load_lines ys c
unfolding load_lines
load_lines-Pads nothing c = refl
load_lines-Pads (keeps line {xs} {ys} p) c = same_rest xs ys (load_line line c) (load_lines-Pads p)
load_lines-Pads (skips line h p) c = rw (ignored-load line c h) (load_lines-Pads p c)
