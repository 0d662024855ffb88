-- ===== src/Muduo/InetAddress/Tests.antt =====
-- An address for which inet_ntop gives "7.7.7.7".
use cpp_toy.Base.{ℕ, ◌≡◌, refl, List, [], ◌∷◌, arith}
use cpp_toy.Muduo.InetAddress.{create, to_ip, to_port, to_ip_port}
use cpp_toy.Muduo.InetAddress.Text.{parsed, parsed-to_ip_port}

abbrev sevens : List ℕ
sevens = 55 ∷ 46 ∷ 55 ∷ 46 ∷ 55 ∷ 46 ∷ 55 ∷ []

abbrev address : List ℕ → ℕ
address cs = 117901063

abbrev text : ℕ → List ℕ
text n = sevens

parsed-to_ip_port_example :
    let a = create address sevens 8080 in
    (to_port a ≡ 8080) × (parsed (to_ip_port text a) ≡ (to_ip text a, 8080))
parsed-to_ip_port_example =
    parsed-to_ip_port address text sevens 8080
      (refl, (refl, (refl, (refl, (refl, (refl, (refl, tt))))))) (omega arith)
