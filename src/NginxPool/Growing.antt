-- ===== src/NginxPool/Growing.antt =====
-- The loop of `AllocateSmallBlock` and the block that it adds.
use cpp_toy.Base.{
  ℕ, suc, ◌+◌, ◌%◌, ◌^◌, ◌≤◌, ◌<◌, ◌≡◌, refl, ap, List, [], ◌∷◌, ◌++◌, map, length, ltb, if_cases,
  if◌then◌else◌, arith, size_mod,
}
use cpp_toy.NginxPool.{SmallBlock, Pool, alignment, small_block_bytes, align_size, new_block, bump}
use cpp_toy.NginxPool.Carving.{IsBlock, AreBlocks, align_size_lem}

-- Where a block lies, whatever is cut from it.
abbrev pub place : SmallBlock → ℕ × ℕ × ℕ
place b = (b.address, b.start, b.end)

-- The failures of the blocks and the current position, which may move on, up to the block to come.
pub record Bumped (i : ℕ) (bs : List SmallBlock) (current : ℕ) (r : List SmallBlock × ℕ)
    : Type 0 where
  pub places : map place r.0 ≡ map place bs
  pub are_blocks : AreBlocks bs → AreBlocks r.0
  pub same_length : length r.0 ≡ length bs
  pub stays : current ≤ i + length bs → r.1 ≤ i + length bs

pub IsBlock-failed : (b : SmallBlock) (n : ℕ) → IsBlock b → IsBlock (record b { failed = n })
IsBlock-failed b n h = record {
  aligned_end = h.aligned_end;
  low = h.low;
  high = h.high;
  fits = h.fits;
}

pub bump-Bumped :
    (i : ℕ) (bs : List SmallBlock) (current : ℕ) → Bumped i bs current (bump i bs current)
unfolding bump
bump-Bumped i [] current = record {
  places = refl;
  are_blocks = λ h. h;
  same_length = refl;
  stays = λ h. h;
}
bump-Bumped i (b ∷ []) current = record {
  places = refl;
  are_blocks = λ h. (IsBlock-failed b (b.failed + 1) h.0, tt);
  same_length = refl;
  stays = λ le. if_cases (λ k. k ≤ i + 1) (ltb 4 (b.failed + 1)) (λ _. omega arith) (λ _. le);
}
bump-Bumped i (b ∷ c ∷ rest) current =
    let cur = if ltb 4 b.failed then suc i else current in
    let h = bump-Bumped (suc i) (c ∷ rest) cur in
    record {
      places = ap (λ ps. place b ∷ ps) h.places;
      are_blocks = λ hb. (IsBlock-failed b (b.failed + 1) hb.0, h.are_blocks hb.1);
      same_length = ap suc h.same_length;
      stays = λ le. omega (
        arith,
        h.stays (
            if_cases (λ k. k ≤ suc i + length (c ∷ rest)) (ltb 4 b.failed) (λ _. omega arith)
              (λ _. omega arith)),
      );
    }

pub map-append {ℓ κ} :
    {A : Type ℓ} {B : Type κ} (f : A → B) (xs ys : List A) → map f (xs ++ ys) ≡ map f xs ++ map f ys
map-append f [] ys = refl
map-append f (x ∷ xs) ys = ap (λ r. f x ∷ r) (map-append f xs ys)

-- The pool has a current block, and a new block has room for any small request.
pub record IsPool (s : Pool) : Type 0 where
  pub are_blocks : AreBlocks s.blocks
  pub has_current : s.current < length s.blocks
  pub aligned_size : s.size % alignment ≡ 0
  pub roomy : 4144 ≤ s.size

-- What the source asks of `malloc`: aligned memory at addresses that a pointer holds.
unfoldable pub Fits : ((call size : ℕ) → ℕ) → Type 0
Fits malloc =
    (call size : ℕ)
    → size < 2 ^ 63
    → (malloc call size % alignment ≡ 0) × (malloc call size + size + alignment < size_mod)

pub new_block-IsBlock :
    (memory pool_size size : ℕ)
    → pool_size % alignment ≡ 0
    → 4144 ≤ pool_size
    → size ≤ 4095
    → memory % alignment ≡ 0
    → memory + pool_size + alignment < size_mod
    → IsBlock (record (new_block memory pool_size) {
      start = align_size (memory + small_block_bytes) alignment + size;
    })
unfolding new_block
new_block-IsBlock memory pool_size size al roomy le al' fits =
    let a = align_size_lem (memory + small_block_bytes) (omega arith) in
    record {
      aligned_end = omega arith;
      low = omega (arith, a.1);
      high = omega (arith, a.2);
      fits = fits;
    }

-- What a small request leaves alone.
abbrev pub Keeps : Pool → Pool → Type 0
Keeps s s' =
    (s'.size ≡ s.size) × (s'.large ≡ s.large) × (s'.cleanup ≡ s.cleanup) × (s'.effects ≡ s.effects)
