-- ===== src/Editors/Vi/Find/Forward.antt =====
-- A forward search of vi in kernel/shell/editors.c stops at the first match behind the cursor.
use rtjn_kernel.Prelude.{
  ℕ, zero, suc, ◌+◌, ◌-◌, ◌≤◌, ◌<◌, ◌≡◌, ◌≢◌, ◌⊎◌, inl, inr, refl, ap, ◌∙◌, sym, arith, List,
  Option, none, some, true, false, if_intro, ≢→==,
}
use mathlib.Core.Bool.{true≢false}
use native.Mathlib.Decide.{dec_lt}
use rtjn_kernel.Text.{strlen}
use rtjn_kernel.Editors.Document.{Document, line_at}
use rtjn_kernel.Editors.Vi.Find.{match_at, scan_up, columns, rows_up, vi_search_forward}

module _ (pat : List ℕ) (plen : ℕ) where
  -- What a scan of the `left` columns from `c` on reports.
  abbrev Scanned : List ℕ → ℕ → ℕ → Option ℕ → Type 0
  Scanned line left c none = (k : ℕ) → c ≤ k → k < c + left → match_at pat plen line k ≡ false
  Scanned line left c (some m) =
      (c ≤ m)
      × (m < c + left)
      × (match_at pat plen line m ≡ true)
      × ((k : ℕ) → c ≤ k → k < m → match_at pat plen line k ≡ false)

  cons_false :
      (line : List ℕ) (c n : ℕ)
      → match_at pat plen line c ≡ false
      → ((k : ℕ) → c + 1 ≤ k → k < n → match_at pat plen line k ≡ false)
      → (k : ℕ) → c ≤ k
      → k < n
      → match_at pat plen line k ≡ false
  cons_false line c n here there k le lt = elim (dec_lt c k) [
    | yes later ↦ there k (omega arith) lt
    | no first ↦ let same : k ≡ c = omega arith in rw same here
  ]

  scan_up-Scanned :
      (line : List ℕ) (left c : ℕ) → Scanned line left c (scan_up pat plen line left c)
  unfolding scan_up
  scan_up-Scanned line zero c = λ k le lt. absurd (omega arith)
  scan_up-Scanned line (suc left) c =
      if_intro (Scanned line (suc left) c) (match_at pat plen line c)
        (λ t. (omega arith, omega arith, t, λ k le lt. absurd (omega arith)))
        (λ f. further f (scan_up pat plen line left (c + 1)) (scan_up-Scanned line left (c + 1)))
    where
      further :
          match_at pat plen line c ≡ false
          → (r : Option ℕ) → Scanned line left (c + 1) r
          → Scanned line (suc left) c r
      further f none s = λ k le lt. cons_false line c (c + 1 + left) f s k le (omega arith)
      further f (some m) (le, lt, here, before) =
          (omega arith, omega arith, here, cons_false line c m f before)

-- Where a match is, and the order of the places.
module _ (pat : List ℕ) (plen : ℕ) (d : Document) where
  abbrev pub Matches : ℕ → ℕ → Type 0
  Matches r c =
      (r < d.lcount)
      × (c + plen ≤ strlen (line_at d.lines r))
      × (match_at pat plen (line_at d.lines r) c ≡ true)

abbrev pub Before : ℕ → ℕ → ℕ → ℕ → Type 0
Before r c r' c' = (r < r') ⊎ ((r ≡ r') × (c < c'))

-- The first match behind the place, or there is none.
pub data FirstMatch (pat : List ℕ) (plen : ℕ) (d : Document) (r c : ℕ)
    : Option (ℕ × ℕ) → Type 0 where
  found :
      (r' c' : ℕ)
      → Before r c r' c'
      → Matches pat plen d r' c'
      → ((k j : ℕ) → Before r c k j → Before k j r' c' → Matches pat plen d k j → ⊥)
      → FirstMatch pat plen d r c (some (r', c'))
  nowhere :
      ((k j : ℕ) → Before r c k j → Matches pat plen d k j → ⊥) → FirstMatch pat plen d r c none

abbrev AtOrAfter : ℕ → ℕ → ℕ → ℕ → Type 0
AtOrAfter r c k j = (r < k) ⊎ ((r ≡ k) × (c ≤ j))

next_row : (r c k j : ℕ) → AtOrAfter (r + 1) c k j → AtOrAfter r 0 k j
next_row r c k j (inl lt) = inl (omega arith)
next_row r c k j (inr (e, le)) = inl (omega arith)

later_row : (r k j : ℕ) → r < k → AtOrAfter (r + 1) 0 k j
later_row r k j lt = elim (dec_lt (r + 1) k) [
  | yes more ↦ inl more
  | no last ↦ inr (omega arith, omega arith)
]

module _ (pat : List ℕ) (plen : ℕ) (d : Document) where
  abbrev FirstFrom : ℕ → ℕ → Option (ℕ × ℕ) → Type 0
  FirstFrom r c none = (k j : ℕ) → AtOrAfter r c k j → Matches pat plen d k j → ⊥
  FirstFrom r c (some (r', c')) =
      AtOrAfter r c r' c'
      × Matches pat plen d r' c'
      × ((k j : ℕ) → AtOrAfter r c k j → Before k j r' c' → Matches pat plen d k j → ⊥)

  -- A row without a match from `c` on.
  no_match :
      (r c : ℕ)
      → Scanned pat plen (line_at d.lines r) (columns plen (line_at d.lines r) c) c none
      → (j : ℕ) → c ≤ j
      → Matches pat plen d r j
      → ⊥
  no_match r c all j le (_, fits, here) = true≢false (sym here ∙ all j le (omega arith))

  in_row :
      (r c m : ℕ)
      → r < d.lcount
      → Scanned pat plen (line_at d.lines r) (columns plen (line_at d.lines r) c) c (some m)
      → FirstFrom r c (some (r, m))
  in_row r c m used (le, lt, here, before) =
      (inr (refl, le), (used, omega arith, here), none_before)
    where
      none_before : (k j : ℕ) → AtOrAfter r c k j → Before k j r m → Matches pat plen d k j → ⊥
      none_before k j (inl after) (inl b) t = omega arith
      none_before k j (inl after) (inr (e, b)) t = omega arith
      none_before k j (inr (e, after)) (inl b) t = omega arith
      none_before k j (inr (e, after)) (inr (e', b)) (_, _, t) =
          let same : match_at pat plen (line_at d.lines k) j
              ≡ match_at pat plen (line_at d.lines r) j =
            ap (λ i. match_at pat plen (line_at d.lines i) j) e' in
          true≢false (sym t ∙ same ∙ before j after b)

  from_next :
      (r c : ℕ) (o : Option (ℕ × ℕ))
      → Scanned pat plen (line_at d.lines r) (columns plen (line_at d.lines r) c) c none
      → FirstFrom (r + 1) 0 o
      → FirstFrom r c o
  from_next r c none all rest = go
    where
      go : (k j : ℕ) → AtOrAfter r c k j → Matches pat plen d k j → ⊥
      go k j (inl lt) t = rest k j (later_row r k j lt) t
      go k j (inr (e, le)) t = no_match r c all j le (rw e t)
  from_next r c (some (r', c')) all (after, here, before) = (up after, here, go)
    where
      up : AtOrAfter (r + 1) 0 r' c' → AtOrAfter r c r' c'
      up (inl lt) = inl (omega arith)
      up (inr (e, le)) = inl (omega arith)

      go : (k j : ℕ) → AtOrAfter r c k j → Before k j r' c' → Matches pat plen d k j → ⊥
      go k j (inl lt) b t = before k j (later_row r k j lt) b t
      go k j (inr (e, le)) b t = no_match r c all j le (rw e t)

  rows_up-FirstFrom :
      (left r c : ℕ) → d.lcount ≡ r + left → FirstFrom r c (rows_up pat plen d.lines left r c)
  unfolding rows_up
  rows_up-FirstFrom zero r c count = λ k j after m. go k j after m
    where
      go : (k j : ℕ) → AtOrAfter r c k j → Matches pat plen d k j → ⊥
      go k j (inl lt) (used, _, _) = omega arith
      go k j (inr (e, le)) (used, _, _) = omega arith
  rows_up-FirstFrom (suc left) r c count =
      go (scan_up pat plen (line_at d.lines r) (columns plen (line_at d.lines r) c) c)
        (scan_up-Scanned pat plen (line_at d.lines r) (columns plen (line_at d.lines r) c) c)
        (rows_up-FirstFrom left (r + 1) 0 (omega arith))
    where
      go :
          (o : Option ℕ)
          → Scanned pat plen (line_at d.lines r) (columns plen (line_at d.lines r) c) c o
          → FirstFrom (r + 1) 0 (rows_up pat plen d.lines left (r + 1) 0)
          → FirstFrom r c
              (elim o [ some m ↦ some (r, m) | none ↦ rows_up pat plen d.lines left (r + 1) 0 ])
      go none s rest = from_next r c (rows_up pat plen d.lines left (r + 1) 0) s rest
      go (some m) s rest = in_row r c m (omega arith) s

  first_match : (r c : ℕ) (o : Option (ℕ × ℕ)) → FirstFrom r (c + 1) o → FirstMatch pat plen d r c o
  first_match r c none all = nowhere (λ k j b t. all k j (from_before b) t)
    where
      from_before : {k j : ℕ} → Before r c k j → AtOrAfter r (c + 1) k j
      from_before (inl lt) = inl lt
      from_before (inr (e, lt)) = inr (e, omega arith)
  first_match r c (some (r', c')) (after, here, before) =
      found r' c' (to_before after) here (λ k j b b' t. before k j (from_before b) b' t)
    where
      to_before : AtOrAfter r (c + 1) r' c' → Before r c r' c'
      to_before (inl lt) = inl lt
      to_before (inr (e, le)) = inr (e, omega arith)

      from_before : {k j : ℕ} → Before r c k j → AtOrAfter r (c + 1) k j
      from_before (inl lt) = inl lt
      from_before (inr (e, lt)) = inr (e, omega arith)

  -- For a pattern that is not empty, vi_search_forward from a place in a line in use finds the
  -- first place behind it, row by row, where the pattern stands in the text of a line in use; or
  -- there is none and it finds nothing.
  pub vi_search_forward-FirstMatch :
      (r c : ℕ)
      → plen ≢ 0
      → r < d.lcount
      → FirstMatch pat plen d r c (vi_search_forward pat plen r c d)
  unfolding vi_search_forward
  vi_search_forward-FirstMatch r c nz used = rw (≢→== plen 0 nz) (
      first_match r c (rows_up pat plen d.lines (d.lcount - r) r (c + 1))
        (rows_up-FirstFrom (d.lcount - r) r (c + 1) (omega arith)))
