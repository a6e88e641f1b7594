-- ===== src/Editors/Vi/Change/Substitute.antt =====
-- The substitution of vi in kernel/shell/editors.c comes to an end, inside its buffer.
use rtjn_kernel.Prelude.{
  ℕ, zero, suc, ◌+◌, ◌-◌, ◌≤◌, ◌<◌, ◌≡◌, refl, arith, List, [], ◌∷◌, ◌++◌, Option, none, some, true,
  ◌&&◌, if_intro, and_true, ltb, leb, ltb→lt, min, length, length-append, ◌∙◌, lt→ltb, replicate,
  length-replicate,
}
use mathlib.Core.Option
use native.Mathlib.Decide.{dec_lt}
use rtjn_kernel.Text.{strlen, strncmp}
use rtjn_kernel.Editors.Rows.{copy_cells, length-copy_cells}
use rtjn_kernel.Editors.Vi.Find.{match_at}
use rtjn_kernel.Editors.Vi.Motion.{byte_at}
use rtjn_kernel.Editors.Vi.Change.{substitute_from}

-- The bytes fit; the loop goes on for ever only where there is nothing to look for and nothing to
-- put in.
abbrev pub Ended : ℕ → ℕ → ℕ → Option (List ℕ) → Type 0
Ended plen rlen room none = (plen ≡ 0) × (rlen ≡ 0)
Ended plen rlen room (some out) = length out ≤ room

module _ (line pat : List ℕ) (plen : ℕ) (rep : List ℕ) (rlen : ℕ) where
  abbrev substituted : ℕ → ℕ → ℕ → Option (List ℕ)
  substituted fuel c room = substitute_from fuel line pat plen rep rlen c room

  abbrev Fits : ℕ → Option (List ℕ) → Type 0
  Fits room none = Unit
  Fits room (some out) = length out ≤ room

  Fits-map :
      (bytes : List ℕ) (room : ℕ) (o : Option (List ℕ))
      → length bytes ≤ room
      → Fits (room - length bytes) o
      → Fits room (Option.map (λ out. bytes ++ out) o)
  Fits-map bytes room none fits e = tt
  Fits-map bytes room (some out) fits e = omega (arith, length-append bytes out)

  substitute_from-Fits : (fuel c room : ℕ) → Fits room (substituted fuel c room)
  unfolding substitute_from
  substitute_from-Fits zero c room = tt
  substitute_from-Fits (suc fuel) c room =
      let n = min rlen room in
      let put = copy_cells n (replicate n 0) 0 rep 0 0 in
      let size : length put ≡ n =
        length-copy_cells n (replicate n 0) 0 rep 0 0 ∙ length-replicate {A = ℕ} n 0 in
      let behind = substitute_from-Fits fuel (c + plen) (room - n) in
      let next = substitute_from-Fits fuel (c + 1) (room - 1) in
      if_intro (Fits room) (ltb c (strlen line) && ltb 0 room)
        (λ more.
          if_intro (Fits room) (leb (c + plen) (strlen line) && match_at pat plen line c)
            (λ _.
              Fits-map put room (substituted fuel (c + plen) (room - n)) (omega arith)
                (rw size behind))
            (λ _.
              Fits-map (byte_at line c ∷ []) room (substituted fuel (c + 1) (room - 1))
                (ground arith) next))
        (λ _. omega arith)

  abbrev Returns : Option (List ℕ) → Type 0
  Returns none = ⊥
  Returns (some out) = Unit

  Returns-map : (f : List ℕ → List ℕ) (o : Option (List ℕ)) → Returns o → Returns (Option.map f o)
  Returns-map f none r = r
  Returns-map f (some out) r = r

  substitute_from-Returns :
      (fuel c room : ℕ)
      → 0 < plen + rlen
      → strlen line - c + room < fuel
      → Returns (substituted fuel c room)
  unfolding substitute_from
  substitute_from-Returns zero c room some_bytes h = absurd (omega arith)
  substitute_from-Returns (suc fuel) c room some_bytes h =
      let n = min rlen room in
      let put = copy_cells n (replicate n 0) 0 rep 0 0 in
      if_intro Returns (ltb c (strlen line) && ltb 0 room)
        (λ more.
          let (inside, free) = and_true (ltb c (strlen line)) (ltb 0 room) more in
          let lt = ltb→lt c (strlen line) inside in
          let pos = ltb→lt 0 room free in
          if_intro Returns (leb (c + plen) (strlen line) && match_at pat plen line c)
            (λ _.
              Returns-map (λ out. put ++ out) (substituted fuel (c + plen) (room - n))
                (substitute_from-Returns fuel (c + plen) (room - n) some_bytes (omega arith)))
            (λ _.
              Returns-map (λ out. byte_at line c ∷ out) (substituted fuel (c + 1) (room - 1))
                (substitute_from-Returns fuel (c + 1) (room - 1) some_bytes (omega arith))))
        (λ _. tt)

  ended :
      (room : ℕ) (o : Option (List ℕ))
      → (0 < plen + rlen → Returns o)
      → Fits room o
      → Ended plen rlen room o
  ended room none returns fits = elim (dec_lt 0 (plen + rlen)) [
    | yes more ↦ absurd (returns more)
    | no nothing ↦ (omega arith, omega arith)
  ]
  ended room (some out) returns fits = fits

  -- With more fuel than the bytes left in the line and the room together, the loop of
  -- vi_substitute_line ends and what it puts into the buffer fits the room; or the pattern and
  -- the replacement are both empty.
  pub substitute_from-Ended :
      (fuel c room : ℕ)
      → strlen line - c + room < fuel
      → Ended plen rlen room (substitute_from fuel line pat plen rep rlen c room)
  substitute_from-Ended fuel c room h =
      ended room (substituted fuel c room) (λ more. substitute_from-Returns fuel c room more h)
        (substitute_from-Fits fuel c room)

-- With nothing to look for and nothing to put in, the loop stays where it is.
pub substitute_from-hangs :
    (fuel : ℕ) (line pat rep : List ℕ) (c room : ℕ)
    → c < strlen line
    → 0 < room
    → substitute_from fuel line pat 0 rep 0 c room ≡ none
unfolding substitute_from strncmp
substitute_from-hangs zero line pat rep c room inside free = refl
substitute_from-hangs (suc fuel) line pat rep c room inside free =
    let again = substitute_from-hangs fuel line pat rep c room inside free in
    let here : c + 0 ≡ c = omega arith in
    let fits : leb (c + 0) (strlen line) ≡ true = ground arith in
    let still : room - min 0 room ≡ room = omega arith in
    rw (lt→ltb c (strlen line) inside, lt→ltb 0 room free, fits, here, still, again) refl
