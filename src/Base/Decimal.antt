-- ===== src/Base/Decimal.antt =====
-- Decimal numbers as text: `std::to_string`, the %d of printf, and `std::stoi`. A character is its
-- code, an `int` its residue modulo 2 ^ 32.
use Prim.Native.Nat.{ℕ, zero, suc, ◌+◌, ◌-◌, ◌*◌, ◌/◌, ◌%◌, ◌^◌, ◌≤◌, ◌<◌}
use mathlib.Core.Path.{◌≡◌, refl, sym, ap, ◌∙◌}
use mathlib.Core.Logic.{inl, inr}
use mathlib.Core.Bool.{Bool, true, false, ◌&&◌, ◌||◌}
use mathlib.Core.List.{List, [], ◌∷◌}
use cpp_toy.Base.Lists.{length}
use native.Mathlib.Omega.{arith}
use cpp_toy.Base.Tests.{ltb, leb, ◌==◌, if◌then◌else◌, if_cases, lt→ltb, Bool-cases, ltb→lt, le→leb}
use cpp_toy.Base.Outcomes.{Outcome, ok, fail, invalid_argument, value_range}

abbrev pub int_mod : ℕ
int_mod = 2 ^ 32

abbrev pub is_digit : ℕ → Bool
is_digit c = leb 48 c && leb c 57

-- The digits of `n` before `acc`. Each round divides by ten, so more rounds than `n` are enough.
unfoldable pub digits : (fuel : ℕ) → ℕ → List ℕ → List ℕ
digits zero n acc = acc
digits (suc fuel) n acc =
    let acc' = (48 + n % 10) ∷ acc in
    let rest = digits fuel (n / 10) acc' in if ltb n 10 then acc' else rest

abbrev pub to_string : ℕ → List ℕ
to_string n = digits (suc n) n []

-- `%d`, and `std::to_string` of an `int`.
unfoldable pub print_int : ℕ → List ℕ
print_int r = if ltb r (2 ^ 31) then to_string r else 45 ∷ to_string (int_mod - r)

-- The number that the text begins with, after the digits of `acc`.
unfoldable pub read_digits : ℕ → List ℕ → ℕ
read_digits acc [] = acc
read_digits acc (c ∷ cs) =
    let rest = read_digits (acc * 10 + (c - 48)) cs in if is_digit c then rest else acc

-- What `isspace` takes.
abbrev pub is_space : ℕ → Bool
is_space c = c == 32 || (leb 9 c && leb c 13)

unfoldable pub skip_space : List ℕ → List ℕ
skip_space [] = []
skip_space (c ∷ cs) = let rest = skip_space cs in if is_space c then rest else c ∷ cs

unfoldable pub in_range : (minus : Bool) → ℕ → Outcome ℕ
in_range true v = if leb v (2 ^ 31) then ok ((int_mod - v) % int_mod) else fail value_range
in_range false v = if ltb v (2 ^ 31) then ok v else fail value_range

unfoldable pub unsigned_number : (minus : Bool) → List ℕ → Outcome ℕ
unfolding in_range
unsigned_number minus [] = fail invalid_argument
unsigned_number minus (c ∷ cs) =
    if is_digit c then in_range minus (read_digits 0 (c ∷ cs)) else fail invalid_argument

unfoldable pub signed_number : List ℕ → Outcome ℕ
signed_number [] = fail invalid_argument
signed_number (c ∷ cs) =
    if c == 45
    then unsigned_number true cs
    else if c == 43
    then unsigned_number false cs
    else unsigned_number false (c ∷ cs)

unfoldable pub stoi : List ℕ → Outcome ℕ
stoi cs = signed_number (skip_space cs)

digit-read :
    (a d : ℕ) (acc : List ℕ)
    → d < 10
    → read_digits a ((48 + d) ∷ acc) ≡ read_digits (a * 10 + d) acc
unfolding read_digits
digit-read a d acc h =
    rw (le→leb 48 (48 + d) (omega arith), le→leb (48 + d) 57 (omega arith))
      (ap (λ v. read_digits v acc) (omega arith))

read-digits :
    (fuel n : ℕ) (acc : List ℕ) → n < fuel → read_digits 0 (digits fuel n acc) ≡ read_digits n acc
unfolding digits
read-digits zero n acc h = absurd (omega arith)
read-digits (suc fuel) n acc h = elim (Bool-cases (ltb n 10)) [
  | inl e ↦ rw e (
      digit-read 0 (n % 10) acc (omega arith)
      ∙ ap (λ v. read_digits v acc) (omega (arith, ltb→lt n 10 e)))
  | inr e ↦ rw e (
      read-digits fuel (n / 10) ((48 + n % 10) ∷ acc) (ground arith)
      ∙ digit-read (n / 10) (n % 10) acc (omega arith)
      ∙ ap (λ v. read_digits v acc) (omega arith))
]

pub read-to_string : (n : ℕ) → read_digits 0 (to_string n) ≡ n
unfolding read_digits
read-to_string n = read-digits (suc n) n [] (omega arith)

-- A printed number is not empty and begins with a digit.
record IsNumber (cs : List ℕ) : Type 0 where
  d : ℕ
  rest : List ℕ
  small : d < 10
  is : cs ≡ (48 + d) ∷ rest

digits_onto : (fuel n : ℕ) (acc : List ℕ) → IsNumber acc → IsNumber (digits fuel n acc)
unfolding digits
digits_onto zero n acc h = h
digits_onto (suc fuel) n acc h =
    if_cases IsNumber (ltb n 10) (λ _. first n acc) (λ _. digits_onto fuel (n / 10) _ (first n acc))
  where
    first : (n : ℕ) (acc : List ℕ) → IsNumber ((48 + n % 10) ∷ acc)
    first n acc = record { d = n % 10; rest = acc; small = omega arith; is = refl }

to_string-IsNumber : (n : ℕ) → IsNumber (to_string n)
unfolding digits
to_string-IsNumber n =
    if_cases IsNumber (ltb n 10) (λ _. first) (λ _. digits_onto n (n / 10) _ first)
  where
    first : IsNumber ((48 + n % 10) ∷ [])
    first = record { d = n % 10; rest = []; small = omega arith; is = refl }

sign_lem : (cs : List ℕ) → signed_number (skip_space (45 ∷ cs)) ≡ unsigned_number true cs
unfolding signed_number skip_space
sign_lem cs = refl

module _ (d : ℕ) (rest : List ℕ) (small : d < 10) where
  number-digit :
      (minus : Bool)
      → unsigned_number minus ((48 + d) ∷ rest) ≡ in_range minus (read_digits 0 ((48 + d) ∷ rest))
  unfolding unsigned_number
  number-digit minus = rw yes refl
    where
      yes : is_digit (48 + d) ≡ true
      yes = ground arith

  signed-digit : signed_number ((48 + d) ∷ rest) ≡ unsigned_number false ((48 + d) ∷ rest)
  unfolding signed_number
  signed-digit = rw (not_minus, not_plus) refl
    where
      not_minus : (48 + d == 45) ≡ false
      not_minus = ground arith

      not_plus : (48 + d == 43) ≡ false
      not_plus = ground arith

  skip-digit : skip_space ((48 + d) ∷ rest) ≡ (48 + d) ∷ rest
  unfolding skip_space
  skip-digit = rw no_space refl
    where
      no_space : is_space (48 + d) ≡ false
      no_space = ground arith

-- What is read back of a text that begins with a digit, or with a sign before it.
stoi_number :
    (cs : List ℕ)
    → IsNumber cs
    → (stoi cs ≡ in_range false (read_digits 0 cs))
      × (stoi (45 ∷ cs) ≡ in_range true (read_digits 0 cs))
unfolding stoi
stoi_number cs h = rw h.is (
  rw (skip-digit h.d h.rest h.small)
      (signed-digit h.d h.rest h.small ∙ number-digit h.d h.rest h.small false),
  sign_lem ((48 + h.d) ∷ h.rest) ∙ number-digit h.d h.rest h.small true,
)

-- A printed `int` is read back as it was.
pub stoi-print_int : (r : ℕ) → r < int_mod → stoi (print_int r) ≡ ok r
unfolding print_int in_range
stoi-print_int r h = elim (Bool-cases (ltb r (2 ^ 31))) [
  | inl e ↦ rw (e, (stoi_number (to_string r) (to_string-IsNumber r)).0, read-to_string r, e) refl
  | inr e ↦
      let n = int_mod - r in
      rw (e, (stoi_number (to_string n) (to_string-IsNumber n)).1, read-to_string n)
        (rw (le→leb n (2 ^ 31) (ground arith)) (ap ok (ground arith)))
]

ok_injective : {m n : ℕ} → ok m ≡ ok n → m ≡ n
ok_injective e = cc

pub print_int_injective : (m n : ℕ) → m < int_mod → n < int_mod → print_int m ≡ print_int n → m ≡ n
print_int_injective m n h k e =
    ok_injective (sym (stoi-print_int m h) ∙ ap stoi e ∙ stoi-print_int n k)

-- The largest number with so many digits and one more is below ten times as much.
abbrev bound : ℕ → ℕ
bound zero = 10
bound (suc k) = 10 * bound k

length-digits :
    (k fuel n : ℕ) (acc : List ℕ) → n < bound k → length (digits fuel n acc) ≤ length acc + suc k
unfolding digits
length-digits k zero n acc h = omega arith
length-digits zero (suc fuel) n acc h = rw (lt→ltb n 10 h) (omega arith)
length-digits (suc k) (suc fuel) n acc h = elim (Bool-cases (ltb n 10)) [
  | inl e ↦ rw e (omega arith)
  | inr e ↦ rw e (omega (arith, length-digits k fuel (n / 10) ((48 + n % 10) ∷ acc) (omega arith)))
]

pub length-print_int : (r : ℕ) → r < int_mod → length (print_int r) ≤ 11
unfolding print_int
length-print_int r h = elim (Bool-cases (ltb r (2 ^ 31))) [
  | inl e ↦ rw e (omega (arith, length-digits 9 (suc r) r [] (omega arith)))
  | inr e ↦ let n = int_mod - r in rw e (omega (arith, length-digits 9 (suc n) n [] (ground arith)))
]
