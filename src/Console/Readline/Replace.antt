-- ===== src/Console/Readline/Replace.antt =====
-- `replace_line` of kernel/shell/readline.c.
use rtjn_kernel.Prelude.{
  ℕ, zero, suc, ◌+◌, ◌-◌, ◌<◌, ◌≡◌, refl, sym, ap, ◌∙◌, arith, List, [], ◌∷◌, ◌++◌, Bool, true,
  false, if_intro, ltb, ◌&&◌, ◌!=◌, ◌==◌, set, take, drop, length, length-set, append-nil,
  append_assoc, ◌⊎◌, inl, inr, ◌≢◌, ≢→==, ltb→lt,
}
use rtjn_kernel.Text.{text}
use rtjn_kernel.Console.Readline.{Line, copy_line, replace_line}
use rtjn_kernel.Console.Readline.Edit.{IsLine}
use rtjn_kernel.Console.Readline.Refine.{Edited}

take-set_end :
    (i : ℕ) (xs : List ℕ) (c : ℕ) → i < length xs → take (i + 1) (set xs i c) ≡ take i xs ++ c ∷ []
take-set_end i [] c h = absurd (omega arith)
take-set_end zero (x ∷ xs) c h = refl
take-set_end (suc i) (x ∷ xs) c h =
    ap (λ n. take n (x ∷ set xs i c)) (let e : suc i + 1 ≡ suc (i + 1) = omega arith in e)
    ∙ ap (λ t. x ∷ t) (take-set_end i xs c (omega arith))

take-nil : (n : ℕ) → take {A = ℕ} n [] ≡ []
take-nil zero = refl
take-nil (suc n) = refl

-- Nothing more is copied at a terminator or at the end of the room.
cut_nil : (n c : ℕ) (cs : List ℕ) → (c ≡ 0) ⊎ (n ≡ 0) → take n (text (c ∷ cs)) ≡ []
cut_nil n c cs (inl e) = rw e (take-nil n)
cut_nil n c cs (inr e) = rw e refl

-- A byte of the text with room for it.
cut_cons :
    (n c : ℕ) (cs : List ℕ) → c ≢ 0 → 0 < n → take n (text (c ∷ cs)) ≡ c ∷ take (n - 1) (text cs)
cut_cons zero c cs ne h = elim h [ ]
cut_cons (suc n) c cs ne h =
    let there : (c == 0) ≡ false = ≢→== c 0 ne in
    rw there (ap (λ m. c ∷ take m (text cs)) (let e : n ≡ suc n - 1 = omega arith in e))

stopped : (c : ℕ) (b : Bool) → ((c != 0) && b) ≡ false → (c ≡ 0) ⊎ (b ≡ false)
stopped c b f = ground arith

going : (c : ℕ) (b : Bool) → ((c != 0) && b) ≡ true → (c ≢ 0) × (b ≡ true)
going c b f = ground arith

-- What the copying loop leaves: its end is inside the buffer, and what it copied is the text as
-- far as there is room.
abbrev Copied : ℕ → ℕ → List ℕ → List ℕ → ℕ × List ℕ → Type 0
Copied size i line buf (n, out) =
    (n < size) × (length out ≡ size) × (take n out ≡ take i buf ++ take (size - 1 - i) (text line))

copy_line-Copied :
    (size i : ℕ) (line buf : List ℕ)
    → i < size
    → length buf ≡ size
    → Copied size i line buf (copy_line size i line buf)
unfolding copy_line
copy_line-Copied size i [] buf h room = (
  h,
  room,
  sym (append-nil (take i buf)) ∙ ap (λ t. take i buf ++ t) (sym (take-nil (size - 1 - i))),
)
copy_line-Copied size i (c ∷ cs) buf h room =
    if_intro (Copied size i (c ∷ cs) buf) (c != 0 && ltb i (size - 1))
      (λ t.
        let (ne, b) = going c (ltb i (size - 1)) t in
        let lt = ltb→lt i (size - 1) b in
        let (n_lt, room', copied) =
          copy_line-Copied size (i + 1) cs (set buf i c) (omega arith)
            (length-set buf i c ∙ room) in
        (
          n_lt,
          room',
          copied
              ∙ ap (λ t. t ++ take (size - 1 - (i + 1)) (text cs))
                  (take-set_end i buf c (omega arith))
              ∙ append_assoc (take i buf) (c ∷ []) (take (size - 1 - (i + 1)) (text cs))
              ∙ ap (λ m. take i buf ++ c ∷ take m (text cs))
                  (let e : size - 1 - (i + 1) ≡ size - 1 - i - 1 = omega arith in e)
              ∙ ap (λ t. take i buf ++ t) (sym (cut_cons (size - 1 - i) c cs ne (omega arith))),
        ))
      (λ f. (
        h,
        room,
        sym (append-nil (take i buf))
            ∙ ap (λ t. take i buf ++ t) (sym (cut_nil (size - 1 - i) c cs (at_end f))),
      ))
  where
    at_end : ((c != 0) && ltb i (size - 1)) ≡ false → (c ≡ 0) ⊎ (size - 1 - i ≡ 0)
    at_end f = elim (stopped c (ltb i (size - 1)) f) [ inl e ↦ inl e | inr b ↦ inr (ground arith) ]

take-set_behind : (i : ℕ) (xs : List ℕ) (c : ℕ) → take i (set xs i c) ≡ take i xs
take-set_behind zero xs c = refl
take-set_behind (suc i) [] c = refl
take-set_behind (suc i) (x ∷ xs) c = ap (λ t. x ∷ t) (take-set_behind i xs c)

-- On a line inside its buffer, replace_line leaves the other line's text, cut to the room, with
-- the cursor behind it.
pub replace_line-Edited :
    (size : ℕ) (line : List ℕ) (l : Line)
    → IsLine size l
    → Edited size (take (size - 1) (text line)) [] (replace_line size line l)
unfolding replace_line
replace_line-Edited size line l ok =
    let len_lt = ok.len_lt in
    let n = (copy_line size 0 line l.buf).0 in
    let out = (copy_line size 0 line l.buf).1 in
    let (lt, room, copied) = copy_line-Copied size 0 line l.buf (omega arith) ok.room in
    (
      take-set_behind n out 0
          ∙ copied
          ∙ ap (λ m. take m (text line)) (let e : size - 1 - 0 ≡ size - 1 = omega arith in e),
      ap (λ m. take m (drop n (set out n 0))) (let e : n - n ≡ 0 = omega arith in e),
      record { room = length-set out n 0 ∙ room; len_lt = lt; pos_le = omega arith },
    )
