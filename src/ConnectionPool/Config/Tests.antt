-- ===== src/ConnectionPool/Config/Tests.antt =====
-- Loading a configuration like that of mysql.ini.
use cpp_toy.Base.{
  ℕ, ◌≡◌, refl, List, [], ◌∷◌, some, true, ok, fail, invalid_argument, value_range, arith, stoi,
  skip_space, signed_number, unsigned_number, in_range, read_digits,
}
use cpp_toy.ConnectionPool.Config.{
  Config, split, load_line, load_lines, load_pair, field_of, assign, trim, find_first_not_blank,
  after_last_not_blank, lines, load_config,
}
use cpp_toy.ConnectionPool.Config.RoundTrip.{
  IsPrintable, print_lines, all_fields, unlines, unlines-Pads, load-print,
}
use cpp_toy.ConnectionPool.Config.Ignored.{
  no_equals, other_key, Pads, nothing, keeps, skips, load_lines-Pads,
}

abbrev config : Config
config = record {
  ip = 49 ∷ 50 ∷ 55 ∷ 46 ∷ 48 ∷ 46 ∷ 48 ∷ 46 ∷ 49 ∷ [];
  port = 3306;
  username = 114 ∷ 111 ∷ 111 ∷ 116 ∷ [];
  password = [];
  dbname = 116 ∷ 101 ∷ 115 ∷ 116 ∷ [];
  init_size = 10;
  max_size = 100;
  max_idle_time = 60000;
  connection_timeout = 4294967295;
}

config-IsPrintable : IsPrintable config
unfolding trim find_first_not_blank after_last_not_blank
config-IsPrintable = record {
  ip_value = (refl, refl);
  port_small = omega arith;
  username_value = (refl, refl);
  password_value = (refl, refl);
  dbname_value = (refl, refl);
  init_size_small = omega arith;
  max_size_small = omega arith;
  max_idle_time_small = omega arith;
  connection_timeout_small = omega arith;
}

-- The file, with a comment before its lines.
abbrev file : List ℕ
file = 35 ∷ 105 ∷ 10 ∷ unlines (print_lines config all_fields)

file-Pads : Pads (lines file) (print_lines config all_fields)
unfolding lines split
file-Pads = skips (35 ∷ 105 ∷ []) (no_equals refl) (unlines-Pads config config-IsPrintable)

load-print_example : load_config (some file) (record config { port = 1 }) ≡ ok (true, config)
load-print_example =
    load-print config (record config { port = 1 }) file config-IsPrintable file-Pads

-- "# comment", "port=80", "port =81"
abbrev padded : List (List ℕ)
padded =
    (35 ∷ 32 ∷ 99 ∷ 111 ∷ 109 ∷ 109 ∷ 101 ∷ 110 ∷ 116 ∷ [])
    ∷ (112 ∷ 111 ∷ 114 ∷ 116 ∷ 61 ∷ 56 ∷ 48 ∷ [])
    ∷ (112 ∷ 111 ∷ 114 ∷ 116 ∷ 32 ∷ 61 ∷ 56 ∷ 49 ∷ [])
    ∷ []

abbrev kept : List (List ℕ)
kept = (112 ∷ 111 ∷ 114 ∷ 116 ∷ 61 ∷ 56 ∷ 48 ∷ []) ∷ []

padded-Pads : Pads padded kept
unfolding split field_of
padded-Pads = skips _ (no_equals refl) (
    keeps _
      (skips _ (other_key (112 ∷ 111 ∷ 114 ∷ 116 ∷ 32 ∷ []) (56 ∷ 49 ∷ []) refl refl) nothing))

same_as_kept : load_lines padded config ≡ load_lines kept config
same_as_kept = load_lines-Pads padded-Pads config

-- "port= 80 " among other lines
loads_port :
    load_config
      (some
        (35 ∷ 10 ∷ 112 ∷ 111 ∷ 114 ∷ 116 ∷ 61 ∷ 32 ∷ 56 ∷ 48 ∷ 32 ∷ 10 ∷ 10 ∷ 120 ∷ 61 ∷ 49 ∷ []))
      config
    ≡ ok (true, record config { port = 80 })
unfolding load_config lines load_lines load_line load_pair field_of split trim find_first_not_blank
    after_last_not_blank assign stoi skip_space signed_number unsigned_number in_range read_digits
loads_port = refl

-- What `std::stoi` throws: "max_size=" and "max_size=9999999999"
no_number :
    load_line (109 ∷ 97 ∷ 120 ∷ 95 ∷ 115 ∷ 105 ∷ 122 ∷ 101 ∷ 61 ∷ []) config ≡ fail invalid_argument
unfolding load_line load_pair field_of split trim find_first_not_blank after_last_not_blank assign
    stoi skip_space signed_number unsigned_number in_range read_digits
no_number = refl

too_large :
    load_line
      (109 ∷ 97 ∷ 120 ∷ 95 ∷ 115 ∷ 105 ∷ 122 ∷ 101 ∷ 61 ∷ 57 ∷ 57 ∷ 57 ∷ 57 ∷ 57 ∷ 57 ∷ 57 ∷ 57 ∷ 57
        ∷ 57 ∷ [])
      config
    ≡ fail value_range
unfolding load_line load_pair field_of split trim find_first_not_blank after_last_not_blank assign
    stoi skip_space signed_number unsigned_number in_range read_digits
too_large = refl
