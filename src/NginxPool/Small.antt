-- ===== src/NginxPool/Small.antt =====
-- `AllocateSmall` and `AllocateSmallBlock` where the blocks end at a multiple of the alignment and a
-- new block has room for the request. `create_ragged` and `outgrown` among the tests show the rest.
use cpp_toy.Base.{
  ℕ, ◌+◌, ◌%◌, ◌^◌, ◌≤◌, ◌<◌, ◌≡◌, ◌≢◌, suc, false≢true, inl, inr, refl, sym, ap, subst, ◌∙◌, List,
  [], ◌∷◌, ◌++◌, append_assoc, map, take, drop, length, length-append, length-take, length-drop,
  take-append-drop, true, ◌==◌, ==_iff, Bool-cases, arith, size_mod, ok,
}
use cpp_toy.NginxPool.{
  SmallBlock, Pool, alignment, small_block_bytes, align_size, new_block, bump, allocate_small_block,
  allocate_from, allocate_small,
}
use cpp_toy.NginxPool.Carving.{
  IsBlock, AreBlocks, Carved, align_size_lem, carve-Carved, Carved-AreBlocks, Carved-append,
  Carved-length, AreBlocks-append, AreBlocks-take, AreBlocks-drop,
}
use cpp_toy.NginxPool.Growing.{
  place, Bumped, bump-Bumped, map-append, IsPool, Fits, new_block-IsBlock, Keeps,
}

-- How a request of `size` bytes was served with `m`.
pub data Served (malloc : (call size : ℕ) → ℕ) (size m : ℕ) (s s' : Pool) : Type 0 where
  from_block : Carved size m s.blocks s'.blocks → s'.calls ≡ s.calls → Served malloc size m s s'
  from_new :
      (olds : List SmallBlock) (b : SmallBlock)
      → s'.blocks ≡ olds ++ b ∷ []
      → map place olds ≡ map place s.blocks
      → IsBlock b
      → b.address ≡ malloc s.calls s.size
      → b.address + small_block_bytes ≤ m
      → m + size ≡ b.start
      → m % alignment ≡ 0
      → b.end ≡ b.address + s.size
      → b.address ≢ 0
      → s'.calls ≡ suc s.calls
      → Served malloc size m s s'
  no_memory :
      malloc s.calls s.size ≡ 0
      → m ≡ 0
      → s'.blocks ≡ s.blocks
      → s'.calls ≡ suc s.calls
      → Served malloc size m s s'

module _ (malloc : (call size : ℕ) → ℕ) (fits : Fits malloc) where
  allocate_small_block-Served :
      (size : ℕ) (s : Pool)
      → IsPool s
      → s.size < 2 ^ 63
      → size ≤ 4095
      → (m : ℕ) × (s' : Pool) × (allocate_small_block malloc size s ≡ ok (m, s'))
        × IsPool s'
        × Keeps s s'
        × Served malloc size m s s'
  unfolding allocate_small_block new_block Fits
  allocate_small_block-Served size s h small le = elim (Bool-cases (malloc s.calls s.size == 0)) [
    | inl e ↦ rw e (
      0,
      _,
      refl,
      record {
        are_blocks = h.are_blocks;
        has_current = h.has_current;
        aligned_size = h.aligned_size;
        roomy = h.roomy;
      },
      (refl, refl, refl, refl),
      no_memory ((==_iff _ _).0 e) refl refl refl,
    )
    | inr e ↦ rw e (
      m,
      _,
      refl,
      record {
        are_blocks =
            AreBlocks-append (take s.current s.blocks) _
              (AreBlocks-take s.current s.blocks h.are_blocks)
              (AreBlocks-append r.0 _
                (bumped.are_blocks (AreBlocks-drop s.current s.blocks h.are_blocks))
                (block-IsBlock, tt));
        has_current = omega (
          arith,
          h.has_current,
          bumped.stays (omega arith),
          bumped.same_length,
          length-append (take s.current s.blocks) (r.0 ++ b ∷ []),
          length-append r.0 (b ∷ []),
          length-take s.current s.blocks,
          length-drop s.current s.blocks,
        );
        aligned_size = h.aligned_size;
        roomy = h.roomy;
      },
      (refl, refl, refl, refl),
      from_new (take s.current s.blocks ++ r.0) _
          (sym (append_assoc (take s.current s.blocks) r.0 _)) places block-IsBlock refl (a.1) refl
          (a.0) refl (λ z. false≢true (sym e ∙ (==_iff _ _).1 z)) refl,
    )
  ]
    where
      memory : ℕ
      memory = malloc s.calls s.size

      m : ℕ
      m = align_size (memory + small_block_bytes) alignment

      r : List SmallBlock × ℕ
      r = bump s.current (drop s.current s.blocks) s.current

      bumped : Bumped s.current (drop s.current s.blocks) s.current r
      bumped = bump-Bumped s.current (drop s.current s.blocks) s.current

      b : SmallBlock
      b = record (new_block memory s.size) { start = m + size }

      room : (memory % alignment ≡ 0) × (memory + s.size + alignment < size_mod)
      room = fits s.calls s.size small

      a :
          (m % alignment ≡ 0)
          × (memory + small_block_bytes ≤ m)
          × (m < memory + small_block_bytes + alignment)
      a = align_size_lem (memory + small_block_bytes) (omega (arith, room.1, h.roomy))

      block-IsBlock : IsBlock b
      block-IsBlock = new_block-IsBlock memory s.size size h.aligned_size h.roomy le room.0 room.1

      places : map place (take s.current s.blocks ++ r.0) ≡ map place s.blocks
      places =
          map-append place (take s.current s.blocks) r.0
          ∙ ap (λ q. map place (take s.current s.blocks) ++ q) bumped.places
          ∙ sym (map-append place (take s.current s.blocks) (drop s.current s.blocks))
          ∙ ap (map place) (take-append-drop s.current s.blocks)

  serve_from :
      (size : ℕ) (s : Pool) (bs : List SmallBlock)
      → drop s.current s.blocks ≡ bs
      → IsPool s
      → s.size < 2 ^ 63
      → size ≤ 4095
      → (m : ℕ) × (s' : Pool) × (allocate_from malloc size true bs s ≡ ok (m, s'))
        × IsPool s'
        × Keeps s s'
        × Served malloc size m s s'
  unfolding allocate_from
  serve_from size s [] e h small le =
      absurd (omega (arith, h.has_current, length-drop s.current s.blocks, ap length e))
  serve_from size s (b ∷ bs) e h small le =
      let hb = subst AreBlocks e (AreBlocks-drop s.current s.blocks h.are_blocks) in
      elim (carve-Carved size (b ∷ bs) hb) [
        | inl n ↦ rw (allocate_from, n) (allocate_small_block-Served size s h small le)
        | inr r ↦
            rw (allocate_from, r.1)
              (
                r.0.0,
                record s { blocks = take s.current s.blocks ++ r.0.1 },
                refl,
                served_pool (carved r.0.0 r.0.1 r.2),
                (refl, refl, refl, refl),
                from_block (carved r.0.0 r.0.1 r.2) refl,
              )
      ]
    where
      carved :
          (m : ℕ) (bs' : List SmallBlock)
          → Carved size m (b ∷ bs) bs'
          → Carved size m s.blocks (take s.current s.blocks ++ bs')
      carved m bs' c =
          subst (λ xs. Carved size m xs (take s.current s.blocks ++ bs'))
            (ap (λ q. take s.current s.blocks ++ q) (sym e) ∙ take-append-drop s.current s.blocks)
            (Carved-append (take s.current s.blocks) c)

      served_pool :
          {m : ℕ} {blocks : List SmallBlock}
          → Carved size m s.blocks blocks
          → IsPool (record s { blocks = blocks })
      served_pool c = record {
        are_blocks = Carved-AreBlocks c h.are_blocks;
        has_current = omega (arith, h.has_current, Carved-length c);
        aligned_size = h.aligned_size;
        roomy = h.roomy;
      }

  -- In a pool of a multiple of 16 bytes, at least 4144, a small request always returns, and keeps the
  -- pool well formed: its bytes, aligned, are cut from the free end of one block, or from a block that
  -- it adds behind the others; it gives null only when `malloc` does.
  pub allocate_small-Served :
      (size : ℕ) (s : Pool)
      → IsPool s
      → s.size < 2 ^ 63
      → size ≤ 4095
      → (m : ℕ) × (s' : Pool) × (allocate_small malloc size true s ≡ ok (m, s'))
        × IsPool s'
        × Keeps s s'
        × Served malloc size m s s'
  unfolding allocate_small
  allocate_small-Served size s h small le =
      serve_from size s (drop s.current s.blocks) refl h small le
