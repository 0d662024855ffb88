-- ===== src/ConnectionPool/Config.antt =====
-- connection_pool/connection_pool.cpp: `LoadConfig`. A character is its code, an `int` its residue
-- modulo 2 ^ 32. What `std::stoi` throws ends the function, with the fields as they were by then.
mod Values
pub mod RoundTrip
pub mod Ignored
mod Tests
use cpp_toy.Base.{
  ℕ, suc, ◌%◌, ◌^◌, List, [], ◌∷◌, Bool, true, false, ◌&&◌, ◌||◌, Option, none, some, take, drop,
  length, ◌==◌, if◌then◌else◌, Outcome, ok, ◌>>=◌, stoi,
}

pub record Config : Type 0 where
  pub ip : List ℕ
  pub port : ℕ  -- an `unsigned short`
  pub username : List ℕ
  pub password : List ℕ
  pub dbname : List ℕ
  pub init_size : ℕ
  pub max_size : ℕ
  pub max_idle_time : ℕ
  pub connection_timeout : ℕ

pub data Field : Type 0 where
  ip : Field
  port : Field
  username : Field
  password : Field
  dbname : Field
  init_size : Field
  max_size : Field
  max_idle_time : Field
  connection_timeout : Field

abbrev pub eq_text : List ℕ → List ℕ → Bool
eq_text [] [] = true
eq_text [] (d ∷ ds) = false
eq_text (c ∷ cs) [] = false
eq_text (c ∷ cs) (d ∷ ds) = c == d && eq_text cs ds

-- The names of the fields, as the source compares them.
abbrev pub key_of : Field → List ℕ
key_of ip = 105 ∷ 112 ∷ []
key_of port = 112 ∷ 111 ∷ 114 ∷ 116 ∷ []
key_of username = 117 ∷ 115 ∷ 101 ∷ 114 ∷ 110 ∷ 97 ∷ 109 ∷ 101 ∷ []
key_of password = 112 ∷ 97 ∷ 115 ∷ 115 ∷ 119 ∷ 111 ∷ 114 ∷ 100 ∷ []
key_of dbname = 100 ∷ 98 ∷ 110 ∷ 97 ∷ 109 ∷ 101 ∷ []
key_of init_size = 105 ∷ 110 ∷ 105 ∷ 116 ∷ 95 ∷ 115 ∷ 105 ∷ 122 ∷ 101 ∷ []
key_of max_size = 109 ∷ 97 ∷ 120 ∷ 95 ∷ 115 ∷ 105 ∷ 122 ∷ 101 ∷ []
key_of max_idle_time = 109 ∷ 97 ∷ 120 ∷ 95 ∷ 105 ∷ 100 ∷ 108 ∷ 101 ∷ 95 ∷ 116 ∷ 105 ∷ 109 ∷ 101 ∷ []
key_of connection_timeout =
    99 ∷ 111 ∷ 110 ∷ 110 ∷ 101 ∷ 99 ∷ 116 ∷ 105 ∷ 111 ∷ 110 ∷ 95 ∷ 116 ∷ 105 ∷ 109 ∷ 101 ∷ 111 ∷ 117
    ∷ 116 ∷ []

-- The branch that is taken for a key; a key of none is passed over.
unfoldable pub field_of : List ℕ → Option Field
field_of key =
    if eq_text key (key_of ip)
    then some ip
    else if eq_text key (key_of port)
    then some port
    else if eq_text key (key_of username)
    then some username
    else if eq_text key (key_of password)
    then some password
    else if eq_text key (key_of dbname)
    then some dbname
    else if eq_text key (key_of init_size)
    then some init_size
    else if eq_text key (key_of max_size)
    then some max_size
    else if eq_text key (key_of max_idle_time)
    then some max_idle_time
    else if eq_text key (key_of connection_timeout)
    then some connection_timeout
    else none

-- The two parts around the first "=".
abbrev pub prepend : ℕ → Option (List ℕ × List ℕ) → Option (List ℕ × List ℕ)
prepend c none = none
prepend c (some (key, value)) = some (c ∷ key, value)

unfoldable pub split : List ℕ → Option (List ℕ × List ℕ)
split [] = none
split (c ∷ cs) = let rest = prepend c (split cs) in if c == 61 then some ([], cs) else rest

-- " \t\n\r"
abbrev pub is_blank : ℕ → Bool
is_blank c = c == 32 || (c == 9 || (c == 10 || c == 13))

-- The length where there is none: `erase` takes `npos` in the same way.
unfoldable pub find_first_not_blank : List ℕ → ℕ
find_first_not_blank [] = 0
find_first_not_blank (c ∷ cs) =
    let rest = find_first_not_blank cs in if is_blank c then suc rest else 0

-- `find_last_not_of` and one more, which is 0 where there is none.
unfoldable pub after_last_not_blank : List ℕ → ℕ
after_last_not_blank [] = 0
after_last_not_blank (c ∷ cs) =
    let rest = after_last_not_blank cs in
    if rest == 0 then (if is_blank c then 0 else 1) else suc rest

unfoldable pub trim : List ℕ → List ℕ
trim value =
    let value' = drop (find_first_not_blank value) value in
    take (after_last_not_blank value') value'

unfoldable pub assign : Option Field → (value : List ℕ) → Config → Outcome Config
assign none value c = ok c
assign (some ip) value c = ok (record c { ip = value })
assign (some port) value c = do v ← stoi value; ok (record c { port = v % 2 ^ 16 })
assign (some username) value c = ok (record c { username = value })
assign (some password) value c = ok (record c { password = value })
assign (some dbname) value c = ok (record c { dbname = value })
assign (some init_size) value c = do v ← stoi value; ok (record c { init_size = v })
assign (some max_size) value c = do v ← stoi value; ok (record c { max_size = v })
assign (some max_idle_time) value c = do v ← stoi value; ok (record c { max_idle_time = v })
assign (some connection_timeout) value c = do
  v ← stoi value
  ok (record c { connection_timeout = v })

unfoldable pub load_pair : Option (List ℕ × List ℕ) → Config → Outcome Config
load_pair none c = ok c
load_pair (some (key, value)) c = assign (field_of key) (trim value) c

unfoldable pub load_line : List ℕ → Config → Outcome Config
load_line line c = if length line == 0 then ok c else load_pair (split line) c

unfoldable pub load_lines : List (List ℕ) → Config → Outcome Config
load_lines [] c = ok c
load_lines (line ∷ rest) c = do c' ← load_line line c; load_lines rest c'

-- `std::getline`: each line ends at a "\n" or at the end of the file.
abbrev pub onto_first : ℕ → List (List ℕ) → List (List ℕ)
onto_first c [] = (c ∷ []) ∷ []
onto_first c (line ∷ rest) = (c ∷ line) ∷ rest

unfoldable pub lines : List ℕ → List (List ℕ)
lines [] = []
lines (c ∷ cs) = let rest = lines cs in if c == 10 then [] ∷ rest else onto_first c rest

-- `file` is mysql.ini, where it can be opened.
unfoldable pub load_config : (file : Option (List ℕ)) → Config → Outcome (Bool × Config)
load_config none c = ok (false, c)
load_config (some text) c = do c' ← load_lines (lines text) c; ok (true, c')
