-- ===== src/Muduo/TcpServer/Counts.antt =====
-- How often a connection stands in a list, or a task about it.
use cpp_toy.Base.{
  ℕ, ◌+◌, ◌≤◌, ◌≡◌, refl, sym, ◌⊎◌, ap, ◌∙◌, inl, inr, List, [], ◌∷◌, ◌++◌, once, ◌&&◌, ◌==◌,
  ==_iff, Bool-cases, if◌then◌else◌, arith,
}
use cpp_toy.Muduo.TcpServer.{Entry, Task, listens, establishes, destroys, assign, erase}

-- Whether a connection, or a task about one, is the one of this number in this loop.
abbrev pub match : (loop id l q : ℕ) → ℕ
match loop id l q = if (loop == l) && (id == q) then 1 else 0

abbrev pub here : (l q : ℕ) → List Entry → ℕ
here l q [] = 0
here l q (c ∷ cs) = match c.loop c.id l q + here l q cs

abbrev pub named : ℕ → List Entry → ℕ
named q [] = 0
named q (c ∷ cs) = once c.id q + named q cs

abbrev pub established : (l q : ℕ) → List Task → ℕ
established l q [] = 0
established l q (listens loop ∷ ts) = established l q ts
established l q (establishes loop id ∷ ts) = match loop id l q + established l q ts
established l q (destroys loop id ∷ ts) = established l q ts

abbrev pub destroyed : (l q : ℕ) → List Task → ℕ
destroyed l q [] = 0
destroyed l q (listens loop ∷ ts) = destroyed l q ts
destroyed l q (establishes loop id ∷ ts) = destroyed l q ts
destroyed l q (destroys loop id ∷ ts) = match loop id l q + destroyed l q ts

-- How often a number was established, in any loop.
abbrev pub anywhere : ℕ → List Task → ℕ
anywhere q [] = 0
anywhere q (listens loop ∷ ts) = anywhere q ts
anywhere q (establishes loop id ∷ ts) = once id q + anywhere q ts
anywhere q (destroys loop id ∷ ts) = anywhere q ts

pub here-append : (l q : ℕ) (xs ys : List Entry) → here l q (xs ++ ys) ≡ here l q xs + here l q ys
here-append l q [] ys = omega arith
here-append l q (x ∷ xs) ys = omega (arith, here-append l q xs ys)

pub named-append : (q : ℕ) (xs ys : List Entry) → named q (xs ++ ys) ≡ named q xs + named q ys
named-append q [] ys = omega arith
named-append q (x ∷ xs) ys = omega (arith, named-append q xs ys)

pub established-append :
    (l q : ℕ) (xs ys : List Task)
    → established l q (xs ++ ys) ≡ established l q xs + established l q ys
established-append l q [] ys = omega arith
established-append l q (listens loop ∷ xs) ys = established-append l q xs ys
established-append l q (establishes loop id ∷ xs) ys = omega (arith, established-append l q xs ys)
established-append l q (destroys loop id ∷ xs) ys = established-append l q xs ys

pub destroyed-append :
    (l q : ℕ) (xs ys : List Task) → destroyed l q (xs ++ ys) ≡ destroyed l q xs + destroyed l q ys
destroyed-append l q [] ys = omega arith
destroyed-append l q (listens loop ∷ xs) ys = destroyed-append l q xs ys
destroyed-append l q (establishes loop id ∷ xs) ys = destroyed-append l q xs ys
destroyed-append l q (destroys loop id ∷ xs) ys = omega (arith, destroyed-append l q xs ys)

pub here-le-named : (l q : ℕ) (cs : List Entry) → here l q cs ≤ named q cs
here-le-named l q [] = omega arith
here-le-named l q (c ∷ cs) = ground (arith, here-le-named l q cs)

pub anywhere-append :
    (q : ℕ) (xs ys : List Task) → anywhere q (xs ++ ys) ≡ anywhere q xs + anywhere q ys
anywhere-append q [] ys = omega arith
anywhere-append q (listens loop ∷ xs) ys = anywhere-append q xs ys
anywhere-append q (establishes loop id ∷ xs) ys = omega (arith, anywhere-append q xs ys)
anywhere-append q (destroys loop id ∷ xs) ys = anywhere-append q xs ys

pub snoc_task :
    (l q : ℕ) (ts : List Task) (t : Task)
    → (established l q (ts ++ t ∷ []) ≡ established l q ts + established l q (t ∷ []))
      × (destroyed l q (ts ++ t ∷ []) ≡ destroyed l q ts + destroyed l q (t ∷ []))
      × (anywhere q (ts ++ t ∷ []) ≡ anywhere q ts + anywhere q (t ∷ []))
snoc_task l q ts t = (
  established-append l q ts (t ∷ []),
  destroyed-append l q ts (t ∷ []),
  anywhere-append q ts (t ∷ []),
)

-- A new number is put behind the others.
pub assign_new :
    (new : Entry) (cs : List Entry) → named new.id cs ≡ 0 → assign new cs ≡ cs ++ new ∷ []
assign_new new [] h = refl
assign_new new (c ∷ cs) h = elim (Bool-cases (c.id == new.id)) [
  | inl e ↦ absurd (ground arith)
  | inr e ↦ rw e (ap (λ r. c ∷ r) (assign_new new cs (ground arith)))
]

-- The erasure by number takes away the one connection of that number, or nothing.
pub here-erase :
    (l q i j : ℕ) (cs : List Entry)
    → named i cs ≤ 1
    → 1 ≤ here j i cs
    → here l q (erase i cs) + match j i l q ≡ here l q cs
here-erase l q i j [] one there = absurd (omega arith)
here-erase l q i j (c ∷ cs) one there = elim (Bool-cases (c.id == i)) [
  | inl e ↦
      let found : c.id ≡ i = (==_iff _ _).0 e in
      let same_loop : c.loop ≡ j = ground (arith, here-le-named j i cs) in rw e (ground arith)
  | inr e ↦ rw e (omega (arith, here-erase l q i j cs (ground arith) (ground arith)))
]

pub erase_none : (i : ℕ) (cs : List Entry) → named i cs ≡ 0 → erase i cs ≡ cs
erase_none i [] h = refl
erase_none i (c ∷ cs) h = elim (Bool-cases (c.id == i)) [
  | inl e ↦ absurd (ground arith)
  | inr e ↦ rw e (ap (λ r. c ∷ r) (erase_none i cs (ground arith)))
]

pub named-erase :
    (q i : ℕ) (cs : List Entry) → 1 ≤ named i cs → named q (erase i cs) + once i q ≡ named q cs
named-erase q i [] h = absurd (omega arith)
named-erase q i (c ∷ cs) h = elim (Bool-cases (c.id == i)) [
  | inl e ↦ rw e (ground (arith, (==_iff _ _).0 e))
  | inr e ↦ rw e (omega (arith, named-erase q i cs (ground arith)))
]

-- Whether it is this one, for whatever is counted of both.
pub match_cases :
    (j i l q : ℕ) (f : ℕ → ℕ → ℕ) → ((match j i l q ≡ 1) × (f l q ≡ f j i)) ⊎ (match j i l q ≡ 0)
match_cases j i l q f = elim (Bool-cases (j == l)) [
  | inr e ↦ inr (rw e refl)
  | inl e ↦ elim (Bool-cases (i == q)) [
    | inr g ↦ inr (rw (e, g) refl)
    | inl g ↦
        inl (rw (e, g) refl, sym (ap (λ x. f x i) ((==_iff _ _).0 e) ∙ ap (f l) ((==_iff _ _).0 g)))
  ]
]
