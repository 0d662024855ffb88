-- ===== src/Muduo/TcpServer/Names.antt =====
-- The names of connections, which are the keys of the server's map.
use cpp_toy.Base.{
  ℕ, ◌<◌, ◌≡◌, ◌≢◌, ap, ◌∙◌, sym, List, ◌∷◌, ◌++◌, length, drop, drop-append_length, arith, int_mod,
  print_int, print_int_injective,
}

-- `conn_name` of `NewConnection`; 45 is '-' and 35 '#'.
unfoldable pub conn_name : (name ip_port : List ℕ) (next_conn_id : ℕ) → List ℕ
conn_name name ip_port next_conn_id = name ++ 45 ∷ (ip_port ++ 35 ∷ print_int next_conn_id)

append_cancel : (xs ys zs : List ℕ) → xs ++ ys ≡ xs ++ zs → ys ≡ zs
append_cancel xs ys zs e =
    sym (drop-append_length (length xs) 0 xs ys (omega arith))
    ∙ ap (drop (length xs)) e
    ∙ drop-append_length (length xs) 0 xs zs (omega arith)

-- Two connections of one server with different numbers have different names, so that neither takes
-- the other's place in the map. A number is an `int`.
pub conn_names_distinct :
    (name ip_port : List ℕ) (m n : ℕ)
    → m < int_mod
    → n < int_mod
    → m ≢ n
    → conn_name name ip_port m ≢ conn_name name ip_port n
unfolding conn_name
conn_names_distinct name ip_port m n h k other e =
    other (print_int_injective m n h k (ap (drop 1) same_number))
  where
    after_name : (i : ℕ) → List ℕ
    after_name i = 45 ∷ (ip_port ++ 35 ∷ print_int i)

    same_tail : after_name m ≡ after_name n
    same_tail = append_cancel name (after_name m) (after_name n) e

    same_number : (35 ∷ print_int m) ≡ (35 ∷ print_int n)
    same_number = append_cancel ip_port _ _ (ap (drop 1) same_tail)
