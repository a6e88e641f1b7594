-- ===== src/Editors/Nano/Load.antt =====
-- What the loop of `nano_load_file` in kernel/shell/editors.c makes of the bytes of a line.
use rtjn_kernel.Prelude.{
  ℕ, zero, suc, ◌+◌, ◌-◌, ◌≤◌, ◌<◌, ◌≡◌, ◌≢◌, refl, ap, ◌∙◌, arith, List, [], ◌∷◌, ◌++◌, ◌&&◌, ltb,
  leb, ◌==◌, if◌then◌else◌, if_intro, get_or, set, length, length-set, get_or-set, get_or-set_self,
  ≢→==, lt→ltb,
}
use rtjn_kernel.Text.{text}
use rtjn_kernel.Editors.Rows.{text_of_get_or}
use rtjn_kernel.Editors.Nano.File.{Loading, tmp_size, ended, load_char, load_chars}

-- Bytes that a line of a file can hold: no zero, no newline.
abbrev pub Clean : List ℕ → Type 0
Clean [] = Unit
Clean (c ∷ t) = (c ≢ 0) × (c ≢ 10) × Clean t

abbrev pub put : List ℕ → ℕ → List ℕ → List ℕ
put [] p tmp = tmp
put (c ∷ t) p tmp = put t (p + 1) (set tmp p c)

pub length-put : (t : List ℕ) (p : ℕ) (tmp : List ℕ) → length (put t p tmp) ≡ length tmp
length-put [] p tmp = refl
length-put (c ∷ t) p tmp = length-put t (p + 1) (set tmp p c) ∙ length-set tmp p c

get_or-put :
    (t : List ℕ) (p : ℕ) (tmp : List ℕ) (j : ℕ)
    → p + length t ≤ length tmp
    → get_or (put t p tmp) j 0
      ≡ (if leb p j && ltb j (p + length t) then get_or t (j - p) 0 else get_or tmp j 0)
get_or-put [] p tmp j h = ground arith
get_or-put (c ∷ t) p tmp j h =
    let same = length-set tmp p c in
    ground (
      arith,
      get_or-put t (p + 1) (set tmp p c) j (omega arith),
      get_or-set tmp p j c 0 (omega arith),
      get_or_step c t (j - p),
      ap (λ k. get_or t k 0) (let e : j - (p + 1) ≡ j - p - 1 = omega arith in e),
    )
  where
    get_or_step :
        (c : ℕ) (t : List ℕ) (k : ℕ)
        → get_or (c ∷ t) k 0 ≡ (if k == 0 then c else get_or t (k - 1) 0)
    get_or_step c t zero = refl
    get_or_step c t (suc k) = ground arith

-- The bytes of a line go to `tmp_line`, one behind the other.
pub load_chars-put :
    (t : List ℕ) (l : Loading)
    → Clean t
    → l.tpos + length t < tmp_size
    → load_chars t l ≡ record l { tmp_line = put t l.tpos l.tmp_line; tpos = l.tpos + length t }
unfolding load_chars load_char
load_chars-put [] l clean h =
    let same : l.tpos ≡ l.tpos + 0 = omega arith in λ i. record l { tpos = same i }
load_chars-put (c ∷ t) l (nz, nl, clean) h =
    let next = record l { tmp_line = set l.tmp_line l.tpos c; tpos = l.tpos + 1 } in
    let count : l.tpos + 1 + length t ≡ l.tpos + suc (length t) = omega arith in
    rw (≢→== c 10 nl, lt→ltb l.tpos (tmp_size - 1) (omega arith))
      (load_chars-put t next clean (omega arith)
        ∙ (λ i. record l { tmp_line = put (c ∷ t) l.tpos l.tmp_line; tpos = count i }))

pub load_chars-append :
    (s t : List ℕ) (l : Loading) → load_chars (s ++ t) l ≡ load_chars t (load_chars s l)
unfolding load_chars
load_chars-append [] t l = refl
load_chars-append (c ∷ s) t l = load_chars-append s t (load_char c l)

nonzero : (t : List ℕ) → Clean t → (j : ℕ) → j < length t → get_or t j 0 ≢ 0
nonzero [] clean j lt = absurd (omega arith)
nonzero (c ∷ t) (nz, nl, clean) zero lt = nz
nonzero (c ∷ t) (nz, nl, clean) (suc j) lt = nonzero t clean j (omega arith)

-- A line without a carriage return at its end is complete in `tmp_line`.
pub text-ended :
    (t tmp : List ℕ)
    → Clean t
    → length t < length tmp
    → get_or t (length t - 1) 0 ≢ 13
    → text (ended (put t 0 tmp) (length t)) ≡ t
text-ended t tmp clean room plain =
    let there = λ (j : ℕ). get_or-put t 0 tmp j (omega arith) in
    let same = length-put t 0 tmp in
    let full = set (put t 0 tmp) (length t) 0 in
    let complete : text full ≡ t =
      text_of_get_or full t (nonzero t clean)
        (λ j lt. ground (arith, there j, get_or-set (put t 0 tmp) (length t) j 0 0 (omega arith)))
        (get_or-set_self (put t 0 tmp) (length t) 0 0 (omega arith)) in
    if_intro (λ s. text s ≡ t) (ltb 0 (length t) && (get_or (put t 0 tmp) (length t - 1) 0 == 13))
      (λ e. absurd (plain (ground (arith, there (length t - 1))))) (λ _. complete)
