-- ===== src/NginxPool/Carving.antt =====
-- The loop of `AllocateSmall`: what it cuts from well-formed blocks.
use cpp_toy.Base.{
  ℕ, zero, suc, ◌-◌, ◌+◌, ◌%◌, ◌≤◌, ◌<◌, ◌≡◌, ◌⊎◌, inl, inr, refl, ap, List, [], ◌∷◌, ◌++◌, take,
  drop, length, true, none, some, leb, leb→le, Bool-cases, arith, size_mod, add_size, sub_size,
  sub_size_exact,
}
use cpp_toy.NginxPool.{SmallBlock, alignment, small_block_bytes, align_size, carve}

pub record IsBlock (b : SmallBlock) : Type 0 where
  pub aligned_end : b.end % alignment ≡ 0
  pub low : b.address + small_block_bytes ≤ b.start
  pub high : b.start ≤ b.end
  pub fits : b.end + alignment < size_mod

abbrev pub AreBlocks : List SmallBlock → Type 0
AreBlocks [] = Unit
AreBlocks (b ∷ bs) = IsBlock b × AreBlocks bs

-- `m` and the `size` bytes behind it are cut from the free end of one of the blocks, and nothing else
-- changes.
pub data Carved (size m : ℕ) : List SmallBlock → List SmallBlock → Type 0 where
  here :
      (b : SmallBlock) (bs : List SmallBlock)
      → b.start ≤ m
      → m + size ≤ b.end
      → m % alignment ≡ 0
      → Carved size m (b ∷ bs) (record b { start = m + size } ∷ bs)
  there :
      (b : SmallBlock) {bs bs' : List SmallBlock}
      → Carved size m bs bs'
      → Carved size m (b ∷ bs) (b ∷ bs')

pub align_size_lem :
    (x : ℕ)
    → x + alignment < size_mod
    → (align_size x alignment % alignment ≡ 0)
      × (x ≤ align_size x alignment)
      × (align_size x alignment < x + alignment)
unfolding align_size add_size sub_size
align_size_lem x h = (omega arith, omega arith, omega arith)

-- Aligned, the free start of a block is still within it.
pub align-start : (b : SmallBlock) → IsBlock b → align_size b.start alignment ≤ b.end
unfolding align_size add_size sub_size
align-start b h = omega (arith, h.aligned_end, h.high, h.fits)

pub carve-Carved :
    (size : ℕ) (bs : List SmallBlock)
    → AreBlocks bs
    → (carve size true bs ≡ none)
      ⊎ ((r : ℕ × List SmallBlock) × (carve size true bs ≡ some r) × Carved size r.0 bs r.1)
unfolding carve
carve-Carved size [] h = inl refl
carve-Carved size (b ∷ bs) (hb, hs) =
    let m = align_size b.start alignment in
    let start_fits : b.start + alignment < size_mod = omega (arith, hb.high, hb.fits) in
    rw (sub_size_exact b.end m (align-start b hb) (omega (arith, hb.fits)))
      (elim (Bool-cases (leb size (b.end - m))) [
        | inl e ↦ rw e (
            inr (
              _,
              refl,
              here b bs (align_size_lem b.start start_fits).1
                  (omega (arith, leb→le _ _ e, align-start b hb))
                  (align_size_lem b.start start_fits).0,
            ))
        | inr e ↦ rw e (elim (carve-Carved size bs hs) [
          | inl n ↦ rw n (inl refl)
          | inr r ↦ rw r.1 (inr (_, refl, there b r.2))
        ])
      ])

pub Carved-AreBlocks :
    {size m : ℕ} {bs bs' : List SmallBlock} → Carved size m bs bs' → AreBlocks bs → AreBlocks bs'
Carved-AreBlocks (here b bs low high al) (hb, hs) = (
  record { aligned_end = hb.aligned_end; low = omega (arith, hb.low); high = high; fits = hb.fits },
  hs,
)
Carved-AreBlocks (there b c) (hb, hs) = (hb, Carved-AreBlocks c hs)

pub Carved-append :
    {size m : ℕ} (xs : List SmallBlock) {bs bs' : List SmallBlock}
    → Carved size m bs bs'
    → Carved size m (xs ++ bs) (xs ++ bs')
Carved-append [] c = c
Carved-append (x ∷ xs) c = there x (Carved-append xs c)

-- What is cut is not at null.
pub Carved-positive :
    {size m : ℕ} {bs bs' : List SmallBlock} → Carved size m bs bs' → AreBlocks bs → 1 ≤ m
Carved-positive (here b bs low high al) (hb, hs) = omega (arith, hb.low)
Carved-positive (there b c) (hb, hs) = Carved-positive c hs

pub Carved-length :
    {size m : ℕ} {bs bs' : List SmallBlock} → Carved size m bs bs' → length bs' ≡ length bs
Carved-length (here b bs low high al) = refl
Carved-length (there b c) = ap suc (Carved-length c)

pub AreBlocks-append :
    (xs ys : List SmallBlock) → AreBlocks xs → AreBlocks ys → AreBlocks (xs ++ ys)
AreBlocks-append [] ys hx hy = hy
AreBlocks-append (x ∷ xs) ys (h, hx) hy = (h, AreBlocks-append xs ys hx hy)

pub AreBlocks-take : (n : ℕ) (xs : List SmallBlock) → AreBlocks xs → AreBlocks (take n xs)
AreBlocks-take zero xs h = tt
AreBlocks-take (suc n) [] h = tt
AreBlocks-take (suc n) (x ∷ xs) (h, hs) = (h, AreBlocks-take n xs hs)

pub AreBlocks-drop : (n : ℕ) (xs : List SmallBlock) → AreBlocks xs → AreBlocks (drop n xs)
AreBlocks-drop zero xs h = h
AreBlocks-drop (suc n) [] h = tt
AreBlocks-drop (suc n) (x ∷ xs) (h, hs) = AreBlocks-drop n xs hs
