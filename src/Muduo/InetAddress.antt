-- ===== src/Muduo/InetAddress.antt =====
-- mymuduo/inet_address.h and inet_address.cpp: an IPv4 address with a port. `inet_addr` and
-- `inet_ntop` are parameters. The fields are in network order, which on a little-endian machine has
-- the bytes of the port swapped.
pub mod Text
mod Tests
use cpp_toy.Base.{ℕ, ◌+◌, ◌*◌, ◌/◌, ◌%◌, List, [], ◌∷◌, ◌++◌, to_string}

pub record InetAddress : Type 0 where
  pub sin_addr : ℕ
  pub sin_port : ℕ

-- `htons`, and `ntohs`, which is the same.
abbrev pub swap_bytes : ℕ → ℕ
swap_bytes n = n % 256 * 256 + n / 256 % 256

unfoldable pub create : (inet_addr : List ℕ → ℕ) (ip : List ℕ) (port : ℕ) → InetAddress
create inet_addr ip port = record { sin_addr = inet_addr ip; sin_port = swap_bytes port }

unfoldable pub to_ip : (inet_ntop : ℕ → List ℕ) → InetAddress → List ℕ
to_ip inet_ntop a = inet_ntop a.sin_addr

unfoldable pub to_port : InetAddress → ℕ
to_port a = swap_bytes a.sin_port

-- 58 is ':'. The text of an address has 15 characters at most, the array of the source 64.
unfoldable pub to_ip_port : (inet_ntop : ℕ → List ℕ) → InetAddress → List ℕ
to_ip_port inet_ntop a = inet_ntop a.sin_addr ++ 58 ∷ to_string (swap_bytes a.sin_port)
