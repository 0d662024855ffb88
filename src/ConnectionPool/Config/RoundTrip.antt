-- ===== src/ConnectionPool/Config/RoundTrip.antt =====
-- A configuration that is printed and loaded.
use cpp_toy.Base.{
  ℕ, ◌^◌, ◌<◌, ◌≡◌, refl, ap, sym, subst, ◌∙◌, List, [], ◌∷◌, ◌++◌, Bool, true, false, false≢true,
  not, ◌&&◌, ◌==◌, some, ok, length, arith, Bool-cases, inl, inr, print_int, int_mod,
  stoi-print_int,
}
use native.Mathlib.Nat.{mod-eq_of_lt}
use cpp_toy.ConnectionPool.Config.Ignored.{Pads, nothing, keeps, load_lines-Pads}
use cpp_toy.ConnectionPool.Config.Values.{one_line, IsValue, print_int-IsValue}
use cpp_toy.ConnectionPool.Config.{
  Config, Field, ip, port, username, password, dbname, init_size, max_size, max_idle_time,
  connection_timeout, key_of, field_of, split, trim, assign, load_pair, load_line, load_lines,
  lines, load_config,
}

pub record IsPrintable (c : Config) : Type 0 where
  pub ip_value : IsValue c.ip
  pub port_small : c.port < 2 ^ 16
  pub username_value : IsValue c.username
  pub password_value : IsValue c.password
  pub dbname_value : IsValue c.dbname
  pub init_size_small : c.init_size < int_mod
  pub max_size_small : c.max_size < int_mod
  pub max_idle_time_small : c.max_idle_time < int_mod
  pub connection_timeout_small : c.connection_timeout < int_mod

abbrev pub value_of : Field → Config → List ℕ
value_of ip c = c.ip
value_of port c = print_int c.port
value_of username c = c.username
value_of password c = c.password
value_of dbname c = c.dbname
value_of init_size c = print_int c.init_size
value_of max_size c = print_int c.max_size
value_of max_idle_time c = print_int c.max_idle_time
value_of connection_timeout c = print_int c.connection_timeout

abbrev pub print_line : Config → Field → List ℕ
print_line c f = key_of f ++ 61 ∷ value_of f c

abbrev pub all_fields : List Field
all_fields =
    ip ∷ port ∷ username ∷ password ∷ dbname ∷ init_size ∷ max_size ∷ max_idle_time
    ∷ connection_timeout ∷ []

abbrev pub print_lines : Config → List Field → List (List ℕ)
print_lines c [] = []
print_lines c (f ∷ fs) = print_line c f ∷ print_lines c fs

-- Each line with its "\n".
abbrev pub unlines : List (List ℕ) → List ℕ
unlines [] = []
unlines (l ∷ ls) = l ++ 10 ∷ unlines ls

-- The field of the first configuration, put into the second.
abbrev copy : Field → Config → Config → Config
copy ip c d = record d { ip = c.ip }
copy port c d = record d { port = c.port }
copy username c d = record d { username = c.username }
copy password c d = record d { password = c.password }
copy dbname c d = record d { dbname = c.dbname }
copy init_size c d = record d { init_size = c.init_size }
copy max_size c d = record d { max_size = c.max_size }
copy max_idle_time c d = record d { max_idle_time = c.max_idle_time }
copy connection_timeout c d = record d { connection_timeout = c.connection_timeout }

abbrev copy_all : Config → List Field → Config → Config
copy_all c [] d = d
copy_all c (f ∷ fs) d = copy_all c fs (copy f c d)

split-print_line :
    (f : Field) (value : List ℕ) → split (key_of f ++ 61 ∷ value) ≡ some (key_of f, value)
unfolding split
split-print_line ip value = refl
split-print_line port value = refl
split-print_line username value = refl
split-print_line password value = refl
split-print_line dbname value = refl
split-print_line init_size value = refl
split-print_line max_size value = refl
split-print_line max_idle_time value = refl
split-print_line connection_timeout value = refl

field_of-key_of : (f : Field) → field_of (key_of f) ≡ some f
unfolding field_of
field_of-key_of ip = refl
field_of-key_of port = refl
field_of-key_of username = refl
field_of-key_of password = refl
field_of-key_of dbname = refl
field_of-key_of init_size = refl
field_of-key_of max_size = refl
field_of-key_of max_idle_time = refl
field_of-key_of connection_timeout = refl

not_empty : (xs : List ℕ) (x : ℕ) (ys : List ℕ) → (length (xs ++ x ∷ ys) == 0) ≡ false
not_empty [] x ys = ground arith
not_empty (c ∷ cs) x ys = ground arith

load-print_line :
    (f : Field) (value : List ℕ) (d : Config)
    → load_line (key_of f ++ 61 ∷ value) d ≡ assign (some f) (trim value) d
unfolding load_line load_pair
load-print_line f value d =
    rw (not_empty (key_of f) 61 value, split-print_line f value, field_of-key_of f) refl

newline_and : (c : ℕ) (b : Bool) → (not (c == 10) && b) ≡ true → ((c == 10) ≡ false) × (b ≡ true)
newline_and c b h = elim (Bool-cases (c == 10)) [
  | inl e ↦ absurd (false≢true (sym (ap (λ t. not t && b) e) ∙ h))
  | inr e ↦ (e, sym (ap (λ t. not t && b) e) ∙ h)
]

lines-append : (l rest : List ℕ) → one_line l ≡ true → lines (l ++ 10 ∷ rest) ≡ l ∷ lines rest
unfolding lines
lines-append [] rest h = refl
lines-append (c ∷ l) rest h =
    let (e, h') = newline_and c (one_line l) h in rw (e, lines-append l rest h') refl

one_line-print_line :
    (f : Field) (value : List ℕ) → one_line value ≡ true → one_line (key_of f ++ 61 ∷ value) ≡ true
one_line-print_line ip value h = h
one_line-print_line port value h = h
one_line-print_line username value h = h
one_line-print_line password value h = h
one_line-print_line dbname value h = h
one_line-print_line init_size value h = h
one_line-print_line max_size value h = h
one_line-print_line max_idle_time value h = h
one_line-print_line connection_timeout value h = h

module _ (c : Config) (h : IsPrintable c) where
  value_of-IsValue : (f : Field) → IsValue (value_of f c)
  value_of-IsValue ip = h.ip_value
  value_of-IsValue port = print_int-IsValue c.port
  value_of-IsValue username = h.username_value
  value_of-IsValue password = h.password_value
  value_of-IsValue dbname = h.dbname_value
  value_of-IsValue init_size = print_int-IsValue c.init_size
  value_of-IsValue max_size = print_int-IsValue c.max_size
  value_of-IsValue max_idle_time = print_int-IsValue c.max_idle_time
  value_of-IsValue connection_timeout = print_int-IsValue c.connection_timeout

  assign-value_of : (f : Field) (d : Config) → assign (some f) (value_of f c) d ≡ ok (copy f c d)
  unfolding assign
  assign-value_of ip d = refl
  assign-value_of port d =
      rw (stoi-print_int c.port (omega (arith, h.port_small)), mod-eq_of_lt h.port_small) refl
  assign-value_of username d = refl
  assign-value_of password d = refl
  assign-value_of dbname d = refl
  assign-value_of init_size d = rw (stoi-print_int c.init_size h.init_size_small) refl
  assign-value_of max_size d = rw (stoi-print_int c.max_size h.max_size_small) refl
  assign-value_of max_idle_time d = rw (stoi-print_int c.max_idle_time h.max_idle_time_small) refl
  assign-value_of connection_timeout d =
      rw (stoi-print_int c.connection_timeout h.connection_timeout_small) refl

  load-print_line_of : (f : Field) (d : Config) → load_line (print_line c f) d ≡ ok (copy f c d)
  load-print_line_of f d =
      load-print_line f (value_of f c) d
      ∙ ap (λ v. assign (some f) v d) (value_of-IsValue f).1
      ∙ assign-value_of f d

  lines-unlines : (fs : List Field) → lines (unlines (print_lines c fs)) ≡ print_lines c fs
  unfolding lines
  lines-unlines [] = refl
  lines-unlines (f ∷ fs) =
      lines-append (print_line c f) (unlines (print_lines c fs))
        (one_line-print_line f (value_of f c) (value_of-IsValue f).0)
      ∙ ap (λ ls. print_line c f ∷ ls) (lines-unlines fs)

  load_lines-print :
      (fs : List Field) (d : Config) → load_lines (print_lines c fs) d ≡ ok (copy_all c fs d)
  unfolding load_lines
  load_lines-print [] d = refl
  load_lines-print (f ∷ fs) d = rw (load-print_line_of f d) (load_lines-print fs (copy f c d))

pub all-Pads : (ls : List (List ℕ)) → Pads ls ls
all-Pads [] = nothing
all-Pads (l ∷ ls) = keeps l (all-Pads ls)

-- The file that has a line for each field, and no others.
pub unlines-Pads :
    (c : Config)
    → IsPrintable c
    → Pads (lines (unlines (print_lines c all_fields))) (print_lines c all_fields)
unlines-Pads c h =
    subst (λ ls. Pads ls (print_lines c all_fields)) (sym (lines-unlines c h all_fields))
      (all-Pads _)

-- A configuration that is written as a file, with a line for each field in the order of mysql.ini
-- and any comments or other ignored lines among them, and then loaded, comes back as it was,
-- whatever the fields held before. The texts are single lines without blanks at their ends, the port
-- has 16 bits and the other numbers 32.
pub load-print :
    (c d : Config) (text : List ℕ)
    → IsPrintable c
    → Pads (lines text) (print_lines c all_fields)
    → load_config (some text) d ≡ ok (true, c)
unfolding load_config
load-print c d text h p = rw (load_lines-Pads p d, load_lines-print c h all_fields d) refl
