-- ===== src/Muduo/InetAddress/Text.antt =====
-- An address and its text.
use cpp_toy.Base.{
  ℕ, ◌<◌, ◌≡◌, refl, List, [], ◌∷◌, ◌++◌, arith, false, ◌==◌, if◌then◌else◌, to_string, read_digits,
  read-to_string,
}
use cpp_toy.Muduo.InetAddress.{swap_bytes, create, to_ip, to_port, to_ip_port}

-- The parts of a text before and after its first colon.
abbrev before_colon : List ℕ → List ℕ
before_colon [] = []
before_colon (c ∷ cs) = let rest = before_colon cs in if c == 58 then [] else c ∷ rest

abbrev after_colon : List ℕ → List ℕ
after_colon [] = []
after_colon (c ∷ cs) = let rest = after_colon cs in if c == 58 then cs else rest

abbrev pub HasNoColon : List ℕ → Type 0
HasNoColon [] = Unit {0}
HasNoColon (c ∷ cs) = ((c == 58) ≡ false) × HasNoColon cs

-- The address and the port that a text of an address says.
abbrev pub parsed : List ℕ → List ℕ × ℕ
parsed cs = (before_colon cs, read_digits 0 (after_colon cs))

split_text :
    (cs ds : List ℕ)
    → HasNoColon cs
    → (before_colon (cs ++ 58 ∷ ds) ≡ cs) × (after_colon (cs ++ 58 ∷ ds) ≡ ds)
split_text [] ds h = (refl, refl)
split_text (c ∷ cs) ds h =
    let (before, after) = split_text cs ds h.1 in (rw (h.0, before) refl, rw (h.0, after) refl)

swap_bytes-swap_bytes : (n : ℕ) → n < 65536 → swap_bytes (swap_bytes n) ≡ n
swap_bytes-swap_bytes n h = omega arith

-- Where the text that `inet_ntop` gives for the address has no colon and the port is a 16-bit
-- number: the address gives its port back, and its text says the address and the port.
pub parsed-to_ip_port :
    (inet_addr : List ℕ → ℕ) (inet_ntop : ℕ → List ℕ) (ip : List ℕ) (port : ℕ)
    → HasNoColon (inet_ntop (inet_addr ip))
    → port < 65536
    → let a = create inet_addr ip port in
      (to_port a ≡ port) × (parsed (to_ip_port inet_ntop a) ≡ (to_ip inet_ntop a, port))
unfolding create to_ip to_port to_ip_port
parsed-to_ip_port inet_addr inet_ntop ip port no_colon h =
    let same = swap_bytes-swap_bytes port h in
    let (before, after) =
      split_text (inet_ntop (inet_addr ip)) (to_string (swap_bytes (swap_bytes port))) no_colon in
    (same, rw (before, after, read-to_string (swap_bytes (swap_bytes port)), same) refl)
