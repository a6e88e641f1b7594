-- ===== src/Memory/Frames/Blocks.antt =====
-- `mmap_get_free_consecutives` and `pm_alloc_blocks`: the search for a run of free blocks.
use rtjn_kernel.Prelude.{
  ℕ, zero, suc, ◌+◌, ◌-◌, ◌*◌, ◌/◌, ◌≤◌, ◌<◌, ◌≡◌, refl, ◌≢◌, arith, ◌==◌, ◌!=◌, none, some, Option,
  Bool-cases, inl, inr, ==→≡, ==→≢, ≢→==, if◌then◌else◌, true, ◌⊎◌, get_or,
}
use rtjn_kernel.Memory.Bitmap.{Bitmap, taken}
use rtjn_kernel.Memory.Frames.{
  Frames, all_taken, Scan, found, running, and_then, scan_block, scan_word, scan_words, result,
  mmap_get_free_consecutives,
}
use rtjn_kernel.Memory.Frames.Search.{AllTaken, full_word, test-cases}
use mathlib.Core.Path.{subst}
use native.Mathlib.Decide.{dec_lt}

-- Blocks `b` to `b + n` are free.
abbrev pub FreeRun : Bitmap → ℕ → ℕ → Type 0
FreeRun m b n = (c : ℕ) → b ≤ c → c < b + n → taken m c ≡ 0

-- No run of `n` free blocks ends at `block` or before.
abbrev pub NoRun : Bitmap → ℕ → ℕ → Type 0
NoRun m n block = (b : ℕ) → b + n ≤ block → ¬ FreeRun m b n

-- The locals of the search at `block`: `c` free blocks end here, and no more than those.
pub record IsOpen (m : Bitmap) (n block c first : ℕ) : Type 0 where
  pub short : c < n
  pub run :
      ((c ≡ 0) × (first ≡ 0)) ⊎ ((0 < c) × (first + c ≡ block) × (first ≢ 0) × FreeRun m first c)
  pub longest : (k : ℕ) → k ≤ block → FreeRun m (block - k) k → k ≤ c
  pub none_yet : NoRun m n block

abbrev pub Scanned : Bitmap → ℕ → ℕ → Scan → Type 0
Scanned m n block (found b) = FreeRun m b n × (b + n ≤ block)
Scanned m n block (running c first) = IsOpen m n block c first

module _ (m : Bitmap) (n : ℕ) (some_blocks : 0 < n) where
  -- A taken block ends every run.
  after_taken :
      (block : ℕ)
      → taken m block ≡ 1
      → {c first : ℕ} → IsOpen m n block c first
      → IsOpen m n (block + 1) 0 0
  after_taken block full o = record {
    short = some_blocks;
    run = inl (refl, refl);
    longest = λ k le r. elim (dec_lt 0 k) [
      | yes p ↦ absurd (omega (arith, r block (omega arith) (omega arith)))
      | no p ↦ omega arith
    ];
    none_yet = λ b le r. elim (dec_lt block (b + n)) [
      | yes p ↦ absurd (omega (arith, r block (omega arith) p))
      | no p ↦ o.none_yet b (omega arith) r
    ];
  }

  -- The run with one more free block.
  longer :
      (block c first : ℕ)
      → block ≢ 0
      → taken m block ≡ 0
      → IsOpen m n block c first
      → let first' = if first == 0 then block else first in
        (first' + (c + 1) ≡ block + 1) × (first' ≢ 0) × FreeRun m first' (c + 1)
  longer block c first nz free o = elim o.run [
    | inl (e, e') ↦
        rw (e, e') (omega arith, nz, λ d p q. let here : d ≡ block = omega arith in rw here free)
    | inr (_, e, ne, r) ↦ rw (≢→== first 0 ne) (
      omega arith,
      ne,
      λ d p q. elim (dec_lt d block) [
        | yes lt ↦ r d p (omega arith)
        | no ge ↦ let here : d ≡ block = omega arith in rw here free
      ],
    )
  ]

  after_free :
      (block c first first' : ℕ)
      → taken m block ≡ 0
      → IsOpen m n block c first
      → (first' + (c + 1) ≡ block + 1) × (first' ≢ 0) × FreeRun m first' (c + 1)
      → c + 1 ≢ n
      → IsOpen m n (block + 1) (c + 1) first'
  after_free block c first first' free o r ne = record {
    short = omega (arith, o.short);
    run = inr (omega arith, r.0, r.1, r.2);
    longest = λ k le s. elim (dec_lt 0 k) [
      | yes p ↦
          omega (arith, o.longest (k - 1) (omega arith) (λ d p' q. s d (omega arith) (omega arith)))
      | no p ↦ omega arith
    ];
    none_yet = λ b le s. elim (dec_lt block (b + n)) [
      | yes p ↦ omega (
        arith,
        o.short,
        o.longest (n - 1) (omega arith) (λ d p' q. s d (omega arith) (omega arith)),
      )
      | no p ↦ o.none_yet b (omega arith) s
    ];
  }

  scan_block-Scanned :
      (block c first : ℕ)
      → block ≢ 0
      → IsOpen m n block c first
      → Scanned m n (block + 1) (scan_block m n block c first)
  unfolding scan_block
  scan_block-Scanned block c first nz o = elim (test-cases m block) [
    | inr (e, full) ↦ rw e (after_taken block full o)
    | inl (e, free) ↦
        let r = longer block c first nz free o in
        elim (Bool-cases ((c + 1) == n)) [
          | inl t ↦
              let same : c + 1 ≡ n = ==→≡ (c + 1) n t in
              rw (e, t) (λ d p q. r.2 d p (omega arith), omega (arith, r.0))
          | inr t ↦ rw (e, t) (after_free block c first _ free o r (==→≢ (c + 1) n t))
        ]
  ]

  -- A part of the scan, then the rest.
  and_then-Scanned :
      (mid end : ℕ) (s : Scan) (k : ℕ → ℕ → Scan)
      → mid ≤ end
      → Scanned m n mid s
      → ((c first : ℕ) → IsOpen m n mid c first → Scanned m n end (k c first))
      → Scanned m n end (and_then s k)
  and_then-Scanned mid end (found b) k le h rest = (h.0, omega (arith, h.1))
  and_then-Scanned mid end (running c first) k le h rest = rest c first h

  scan_word-Scanned :
      (block left c first end : ℕ)
      → block ≢ 0
      → block + left ≡ end
      → IsOpen m n block c first
      → Scanned m n end (scan_word m n block left c first)
  unfolding scan_word
  scan_word-Scanned block zero c first end nz e o =
      let e' : block ≡ end = omega arith in rw (← e') o
  scan_word-Scanned block (suc left) c first end nz e o =
      and_then-Scanned (block + 1) end _ _ (omega arith) (scan_block-Scanned block c first nz o)
        (λ c' first' o'.
          scan_word-Scanned (block + 1) left c' first' end (omega arith) (omega arith) o')

  -- A full word stepped over while no run is open.
  after_full :
      (i c first : ℕ)
      → get_or m i 0 ≡ all_taken
      → ((j : ℕ) → i ≡ suc j → taken m (j * 32 + 31) ≡ 1)
      → IsOpen m n (i * 32) c first
      → IsOpen m n ((i + 1) * 32) c first
  after_full i c first full before o = elim o.run [
    | inl (e, e') ↦ record {
      short = o.short;
      run = inl (e, e');
      longest = λ k le r. elim (dec_lt 0 k) [
        | yes p ↦ absurd (omega (arith, last, r (i * 32 + 31) (omega arith) (omega arith)))
        | no p ↦ omega arith
      ];
      none_yet = λ b le r. elim (dec_lt (i * 32) (b + n)) [
        | yes p ↦ absurd (
            omega (
              arith,
              inside (b + n - 1) (omega arith) (omega arith),
              r (b + n - 1) (omega arith) (omega arith),
            ))
        | no p ↦ o.none_yet b (omega arith) r
      ];
    }
    | inr (p, e, ne, r) ↦ absurd (
        omega
          (arith, before (i - 1) (omega arith), r ((i - 1) * 32 + 31) (omega arith) (omega arith)))
  ]
    where
      inside : AllTaken m (i * 32) (i * 32 + 32)
      inside = full_word m i full

      last : taken m (i * 32 + 31) ≡ 1
      last = inside (i * 32 + 31) (omega arith) (omega arith)

-- Among the first `words` words, word 0 is full (it is the kernel's), and a full word stands only
-- behind a taken block.
pub record IsSeparated (m : Bitmap) (words : ℕ) : Type 0 where
  pub kernel_word : get_or m 0 0 ≡ all_taken
  pub behind_taken :
      (i : ℕ) → suc i < words → get_or m (suc i) 0 ≡ all_taken → taken m (i * 32 + 31) ≡ 1

module _ (m : Bitmap) (n words : ℕ) (some_blocks : 0 < n) (sep : IsSeparated m words) where
  behind :
      (i : ℕ)
      → i < words
      → get_or m i 0 ≡ all_taken
      → (j : ℕ) → i ≡ suc j
      → taken m (j * 32 + 31) ≡ 1
  behind i lt full j e =
      sep.behind_taken j (omega arith) (subst (λ w. get_or m w 0 ≡ all_taken) e full)

  nonfull-ne-zero : (i : ℕ) → (get_or m i 0 != all_taken) ≡ true → i ≢ 0
  nonfull-ne-zero zero t = ground (arith, sep.kernel_word)
  nonfull-ne-zero (suc i) t = omega arith

  scan_words-Scanned :
      (i left c first : ℕ)
      → i + left ≡ words
      → IsOpen m n (i * 32) c first
      → Scanned m n (words * 32) (scan_words m n i left c first)
  unfolding scan_words
  scan_words-Scanned i zero c first e o = let e' : i ≡ words = omega arith in rw (← e') o
  scan_words-Scanned i (suc left) c first e o =
      and_then-Scanned m n some_blocks ((i + 1) * 32) (words * 32) _ _ (omega arith) word
        (λ c' first' o'. scan_words-Scanned (i + 1) left c' first' (omega arith) o')
    where
      word :
          Scanned m n ((i + 1) * 32) (
            if get_or m i 0 != all_taken
            then scan_word m n (i * 32) 32 c first
            else running c first)
      word = elim (Bool-cases (get_or m i 0 != all_taken)) [
        | inl t ↦ rw t (
            scan_word-Scanned m n some_blocks (i * 32) 32 c first ((i + 1) * 32)
              (omega (arith, nonfull-ne-zero i t)) (omega arith) o)
        | inr t ↦
            let full : get_or m i 0 ≡ all_taken = ground arith in
            rw t (after_full m n some_blocks i c first full (behind i (omega arith) full) o)
      ]

-- What a search for `n` consecutive blocks below `end` reports.
abbrev pub FoundRun : Bitmap → ℕ → ℕ → Option ℕ → Type 0
FoundRun m n end none = NoRun m n end
FoundRun m n end (some b) = FreeRun m b n × (b + n ≤ end)

FoundRun-result :
    (m : Bitmap) (n end : ℕ) (s : Scan) → Scanned m n end s → FoundRun m n end (result s)
FoundRun-result m n end (found b) h = h
FoundRun-result m n end (running c first) h = h.none_yet

-- On a separated bitmap the search for `n` consecutive blocks, `n` not zero, is exact: it reports
-- a run of `n` free blocks of the whole words, and -1 only when there is none.
pub mmap_get_free_consecutives-FoundRun :
    (f : Frames) (n : ℕ)
    → 0 < n
    → IsSeparated f.map (f.blocks / 32)
    → FoundRun f.map n (f.blocks / 32 * 32) (mmap_get_free_consecutives f n)
unfolding mmap_get_free_consecutives
mmap_get_free_consecutives-FoundRun f n p sep = FoundRun-result f.map n (f.blocks / 32 * 32) _ (
    scan_words-Scanned f.map n (f.blocks / 32) p sep 0 (f.blocks / 32) 0 0 (omega arith) (record {
      short = p;
      run = inl (refl, refl);
      longest = λ k le r. le;
      none_yet = λ b le r. absurd (omega arith);
    }))
