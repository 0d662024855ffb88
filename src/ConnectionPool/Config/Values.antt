-- ===== src/ConnectionPool/Config/Values.antt =====
-- Values without blanks, such as numbers.
use cpp_toy.Base.{
  ℕ, zero, suc, ◌%◌, ◌/◌, ◌^◌, ◌+◌, ◌-◌, ◌≡◌, refl, List, [], ◌∷◌, Bool, true, false, not, ◌&&◌,
  ◌==◌, length, arith, digits, print_int, int_mod, take_all, if_cases, ltb,
}
use cpp_toy.ConnectionPool.Config.{is_blank, find_first_not_blank, after_last_not_blank, trim}

-- No "\n" in it.
abbrev pub one_line : List ℕ → Bool
one_line [] = true
one_line (c ∷ cs) = not (c == 10) && one_line cs

-- A text that the loader can give back: one line without blanks at its ends.
abbrev pub IsValue : List ℕ → Type 0
IsValue value = (one_line value ≡ true) × (trim value ≡ value)

-- No blanks at all.
data IsSolid : List ℕ → Type 0 where
  nil : IsSolid []
  cons : {c : ℕ} {cs : List ℕ} → is_blank c ≡ false → IsSolid cs → IsSolid (c ∷ cs)

IsSolid-one_line : {cs : List ℕ} → IsSolid cs → one_line cs ≡ true
IsSolid-one_line nil = refl
IsSolid-one_line (cons {c} {cs} h s) = rw (no_newline c h, IsSolid-one_line s) refl
  where
    no_newline : (c : ℕ) → is_blank c ≡ false → (c == 10) ≡ false
    no_newline c h = ground arith

IsSolid-after_last : {cs : List ℕ} → IsSolid cs → after_last_not_blank cs ≡ length cs
unfolding after_last_not_blank
IsSolid-after_last nil = refl
IsSolid-after_last (cons {c} {cs} h s) = rw (h, IsSolid-after_last s) (ground arith)

IsSolid-first : {cs : List ℕ} → IsSolid cs → find_first_not_blank cs ≡ 0
unfolding find_first_not_blank
IsSolid-first nil = refl
IsSolid-first (cons h s) = rw h refl

IsSolid-IsValue : {cs : List ℕ} → IsSolid cs → IsValue cs
unfolding trim
IsSolid-IsValue {cs} s = (
  IsSolid-one_line s,
  rw (IsSolid-first s, IsSolid-after_last s) (take_all (length cs) cs (omega arith)),
)

digits-IsSolid : (fuel n : ℕ) (acc : List ℕ) → IsSolid acc → IsSolid (digits fuel n acc)
unfolding digits
digits-IsSolid zero n acc s = s
digits-IsSolid (suc fuel) n acc s =
    if_cases IsSolid (ltb n 10) (λ _. first) (λ _. digits-IsSolid fuel (n / 10) _ first)
  where
    first : IsSolid ((48 + n % 10) ∷ acc)
    first = cons (ground arith) s

print_int-IsSolid : (r : ℕ) → IsSolid (print_int r)
unfolding print_int
print_int-IsSolid r =
    if_cases IsSolid (ltb r (2 ^ 31)) (λ _. digits-IsSolid (suc r) r [] nil)
      (λ _. cons refl (digits-IsSolid (suc (int_mod - r)) (int_mod - r) [] nil))

pub print_int-IsValue : (r : ℕ) → IsValue (print_int r)
print_int-IsValue r = IsSolid-IsValue (print_int-IsSolid r)
