-- ===== src/Memory/Frames/Runs.antt =====
-- `pm_alloc_blocks`: what it does to the allocator, and the bitmaps on which its search goes wrong.
use rtjn_kernel.Prelude.{
  ℕ, zero, suc, ◌+◌, ◌-◌, ◌*◌, ◌/◌, ◌%◌, ◌≤◌, ◌<◌, ◌≡◌, refl, ◌≢◌, arith, ◌==◌, ◌!=◌, length, some,
  Bool-cases, inl, inr, ≢→==, if◌then◌else◌, true, false, get_or, ap, Option-cases, ltb, leb, ◌&&◌,
  ◌∙◌,
}
use rtjn_kernel.Prelude.Bits.{bit_ones}
use rtjn_kernel.Memory.Bitmap.{
  Bitmap, mmap_set, taken, taken-mmap_set, length-mmap_set, mmap_test, mmap_test-eq-zero_iff,
}
use rtjn_kernel.Prelude.Bits.{u32}
use rtjn_kernel.Memory.Frames.{
  Frames, block_size, all_taken, scan_block, scan_word, scan_words, found, running,
  mmap_get_free_consecutives, mmap_set_range, pm_alloc_blocks, pm_free_count,
}
use rtjn_kernel.Memory.Frames.Count.{count_taken, count_taken-mmap_set}
use rtjn_kernel.Memory.Frames.Search.{full_word}
use rtjn_kernel.Memory.Frames.Alloc.{IsSound, whole, used-le-whole, free_count_lem}
use rtjn_kernel.Memory.Frames.Blocks.{
  FreeRun, NoRun, FoundRun, IsSeparated, mmap_get_free_consecutives-FoundRun,
}
use mathlib.Core.Path.{subst}

length-mmap_set_range : (n i : ℕ) (m : Bitmap) → length (mmap_set_range n i m) ≡ length m
unfolding mmap_set_range
length-mmap_set_range zero i m = refl
length-mmap_set_range (suc n) i m =
    length-mmap_set_range n (i + 1) (mmap_set m i) ∙ length-mmap_set m i

-- The marking loop takes the blocks of the run and no others.
taken-mmap_set_range :
    (n i : ℕ) (m : Bitmap) (c : ℕ)
    → i + n ≤ length m * 32
    → taken (mmap_set_range n i m) c ≡ (if leb i c && ltb c (i + n) then 1 else taken m c)
unfolding mmap_set_range
taken-mmap_set_range zero i m c h = ground arith
taken-mmap_set_range (suc n) i m c h = ground (
  arith,
  taken-mmap_set_range n (i + 1) (mmap_set m i) c (omega (arith, length-mmap_set m i)),
  taken-mmap_set m i c (omega arith),
)

count_taken-mmap_set_range :
    (n i : ℕ) (m : Bitmap) (k : ℕ)
    → i + n ≤ k
    → k ≤ length m * 32
    → FreeRun m i n
    → count_taken (mmap_set_range n i m) k ≡ count_taken m k + n
unfolding mmap_set_range
count_taken-mmap_set_range zero i m k h room r = omega arith
count_taken-mmap_set_range (suc n) i m k h room r = omega (
  arith,
  count_taken-mmap_set m i k (omega arith) (omega arith) (r i (omega arith) (omega arith)),
  count_taken-mmap_set_range n (i + 1) (mmap_set m i) k (omega arith)
      (omega (arith, length-mmap_set m i)) rest,
)
  where
    rest : FreeRun (mmap_set m i) (i + 1) n
    rest c p q = ground (arith, taken-mmap_set m i c (omega arith), r c (omega arith) (omega arith))

-- What a call of `pm_alloc_blocks` for `n` blocks may do.
pub data Outcome (f : Frames) (n : ℕ) : ℕ × Frames → Type 0 where
  handed :
      (b : ℕ) (f' : Frames)
      → FreeRun f.map b n
      → b + n ≤ whole f
      → ((c : ℕ) → taken f'.map c ≡ (if leb b c && ltb c (b + n) then 1 else taken f.map c))
      → f'.used ≡ f.used + n
      → IsSound f'
      → Outcome f n (b * block_size, f')
  too_few : f.blocks - f.used < n → Outcome f n (0, f)
  no_run : NoRun f.map n (whole f) → Outcome f n (0, f)

-- On a sound allocator whose bitmap has full words only behind a taken block, pm_alloc_blocks
-- for n > 0 blocks hands out n consecutive free blocks, takes exactly those, adds n to the
-- counter and stays sound; or it returns the null address with the state unchanged, and then
-- fewer than n blocks are free or there is no free run of n.
pub pm_alloc_blocks-Outcome :
    (f : Frames) (n : ℕ)
    → IsSound f
    → 0 < n
    → IsSeparated f.map (f.blocks / 32)
    → Outcome f n (pm_alloc_blocks n f)
unfolding pm_alloc_blocks
pm_alloc_blocks-Outcome f n s p sep = elim (Bool-cases (ltb (pm_free_count f) n)) [
  | inl t ↦ rw t (too_few (ground (arith, free_count_lem f s)))
  | inr t ↦ elim (Option-cases (mmap_get_free_consecutives f n)) [
    | inl e ↦
        rw (t, e)
          (no_run
            (subst (FoundRun f.map n (whole f)) e (mmap_get_free_consecutives-FoundRun f n p sep)))
    | inr (b, e) ↦
        let hit : FoundRun f.map n (whole f) (some b) =
          subst (FoundRun f.map n (whole f)) e (mmap_get_free_consecutives-FoundRun f n p sep) in
        let few : f.used + n ≤ f.blocks = ground (arith, free_count_lem f s, used-le-whole f s) in
        let fits : u32 (b * block_size) ≡ b * block_size = omega (arith, s.sized, hit.1) in
        let next : u32 (f.used + n) ≡ f.used + n = omega (arith, s.sized) in
        rw (t, e, fits, next)
          (handed b _ hit.0 hit.1
            (λ c. taken-mmap_set_range n b f.map c (omega (arith, s.room, hit.1))) refl
            (record {
              room = omega (arith, s.room, length-mmap_set_range n b f.map);
              sized = s.sized;
              counted = omega (
                arith,
                s.counted,
                count_taken-mmap_set_range n b f.map (whole f) hit.1 (omega (arith, s.room)) hit.0,
              );
              kernel = λ c q. ground (
                arith,
                s.kernel c q,
                taken-mmap_set_range n b f.map c (omega (arith, s.room, hit.1)),
              );
            }))
  ]
]

-- The search carries an open run over a full word. On these bitmaps the first free block is the
-- last of word `i`, word `i + 1` is full, and word `i + 2` begins with a free block.
pub record IsSplit (f : Frames) (i : ℕ) : Type 0 where
  pub front : (j : ℕ) → j < i → get_or f.map j 0 ≡ all_taken
  pub edge : get_or f.map i 0 ≡ 0x7fff_ffff
  pub full : get_or f.map (i + 1) 0 ≡ all_taken
  pub next : taken f.map ((i + 2) * 32) ≡ 0
  pub inside : i + 2 < f.blocks / 32

step_over :
    (m : Bitmap) (n i left c first : ℕ)
    → get_or m i 0 ≡ all_taken
    → scan_words m n i (suc left) c first ≡ scan_words m n (i + 1) left c first
unfolding scan_words
step_over m n i left c first e = rw e

skip_front :
    (m : Bitmap) (n k i left total : ℕ)
    → k + left ≡ total
    → ((j : ℕ) → i ≤ j → j < i + k → get_or m j 0 ≡ all_taken)
    → (end : ℕ) → i + k ≡ end
    → scan_words m n i total 0 0 ≡ scan_words m n end left 0 0
skip_front m n zero i left total e h end e' =
    let a : left ≡ total = omega arith in let b : i ≡ end = omega arith in rw (a, b)
skip_front m n (suc k) i left total e h end e' =
    let a : total ≡ suc (k + left) = omega arith in
    rw a (
      step_over m n i (k + left) 0 0 (h i (omega arith) (omega arith))
      ∙ skip_front m n k (i + 1) left (k + left) refl (λ j p q. h j (omega arith) (omega arith)) end
          (omega arith))

-- Taken blocks in front of a word's last block leave no run open.
skip_taken :
    (m : Bitmap) (n k block left total : ℕ)
    → k + left ≡ total
    → ((c : ℕ) → block ≤ c → c < block + k → taken m c ≡ 1)
    → (end : ℕ) → block + k ≡ end
    → scan_word m n block total 0 0 ≡ scan_word m n end left 0 0
unfolding scan_word scan_block
skip_taken m n zero block left total e h end e' =
    let a : left ≡ total = omega arith in let b : block ≡ end = omega arith in rw (a, b)
skip_taken m n (suc k) block left total e h end e' =
    let a : total ≡ suc (k + left) = omega arith in
    let closed : (mmap_test m block == 0) ≡ false =
      ground (arith, (mmap_test-eq-zero_iff m block).0, h block (omega arith) (omega arith)) in
    rw (a, closed)
      (skip_taken m n k (block + 1) left (k + left) refl (λ c p q. h c (omega arith) (omega arith))
        end (omega arith))

abbrev pub split_at : ℕ → ℕ
split_at i = i * 32 + 31

-- The scan of word `i` ends with its last block as the start of an open run.
edge_word :
    (m : Bitmap) (i : ℕ)
    → get_or m i 0 ≡ 0x7fff_ffff
    → scan_word m 2 (i * 32) 32 0 0 ≡ running 1 (split_at i)
unfolding scan_word scan_block
edge_word m i e = skip_taken m 2 31 (i * 32) 1 32 refl held (split_at i) refl ∙ rw opens refl
  where
    held : (c : ℕ) → i * 32 ≤ c → c < i * 32 + 31 → taken m c ≡ 1
    held c p q =
        let word : c / 32 ≡ i = omega arith in rw (word, e) (bit_ones 31 (c % 32) (omega arith))

    free : taken m (split_at i) ≡ 0
    free =
        let word : split_at i / 32 ≡ i = omega arith in
        let last : split_at i % 32 ≡ 31 = omega arith in rw (word, last, e)

    opens : (mmap_test m (split_at i) == 0) ≡ true
    opens = ground (arith, (mmap_test-eq-zero_iff m (split_at i)).1 free)

-- One more free block at the start of a word completes the run of two.
next_word :
    (m : Bitmap) (i left first : ℕ)
    → first ≢ 0
    → taken m (i * 32) ≡ 0
    → scan_words m 2 i (suc left) 1 first ≡ found first
unfolding scan_words scan_word scan_block
next_word m i left first ne free = rw (some_free, opens, ≢→== first 0 ne) refl
  where
    opens : (mmap_test m (i * 32) == 0) ≡ true
    opens = ground (arith, (mmap_test-eq-zero_iff m (i * 32)).1 free)

    low : get_or m i 0 % 2 ≡ 0
    low =
        let word : i * 32 / 32 ≡ i = omega arith in
        let first_bit : i * 32 % 32 ≡ 0 = omega arith in rw (word, first_bit) at free

    some_free : (get_or m i 0 != all_taken) ≡ true
    some_free = ground arith

after_front :
    (f : Frames) (i left : ℕ)
    → IsSplit f i
    → scan_words f.map 2 i (suc (suc (suc left))) 0 0 ≡ found (split_at i)
unfolding scan_words
after_front f i left s =
    rw (s.edge, edge_word f.map i s.edge)
      (step_over f.map 2 (i + 1) (suc left) 1 (split_at i) s.full
        ∙ shift
        ∙ next_word f.map (i + 2) left (split_at i) (omega arith) s.next)
  where
    shift :
        scan_words f.map 2 (i + 1 + 1) (suc left) 1 (split_at i)
        ≡ scan_words f.map 2 (i + 2) (suc left) 1 (split_at i)
    shift = ap (λ w. scan_words f.map 2 w (suc left) 1 (split_at i)) (omega arith)

-- Where the first free block is the last of word i, word i + 1 is full and word i + 2 begins
-- with a free block, the request for two consecutive blocks is answered with that last block,
-- though the block behind it is taken.
pub split_run_found :
    (f : Frames) (i : ℕ)
    → IsSplit f i
    → (mmap_get_free_consecutives f 2 ≡ some (split_at i)) × (taken f.map (split_at i + 1) ≡ 1)
unfolding mmap_get_free_consecutives
split_run_found f i s = (rw search refl, held)
  where
    rest : ℕ
    rest = f.blocks / 32 - i - 3

    search : scan_words f.map 2 0 (f.blocks / 32) 0 0 ≡ found (split_at i)
    search =
        skip_front f.map 2 i 0 (suc (suc (suc rest))) (f.blocks / 32) (omega (arith, s.inside))
          (λ j p q. s.front j (omega arith)) i (omega arith)
        ∙ after_front f i rest s

    held : taken f.map (split_at i + 1) ≡ 1
    held = full_word f.map (i + 1) s.full (split_at i + 1) (omega arith) (omega arith)
