-- ===== src/Net/Arp/Cache.antt =====
-- What the ARP cache remembers: lookups after `arp_cache_add`, and the entry that makes room.
use rtjn_kernel.Prelude.{
  ℕ, zero, suc, ◌+◌, ◌≤◌, ◌<◌, ◌≡◌, ◌≢◌, refl, sym, ap, ◌∙◌, arith, List, [], ◌∷◌, none, some, true,
  false, Bool-cases, if_intro, inl, inr, not, ltb, ltb→lt, get_or, set, length, if◌then◌else◌, ◌^◌,
}
use mathlib.Core.Option.{none-ne-some, some-injective}
use rtjn_kernel.Text.{memcmp}
use rtjn_kernel.Net.Address.{Ip4, Ip4-eq}
use rtjn_kernel.Net.State.{ArpEntry}
use rtjn_kernel.Net.Arp.{same_ip, entry_for, find_entry, find_victim, arp_cache_lookup, blank_entry}

pub same_ip_sound : (a b : Ip4) → same_ip a b ≡ true → a ≡ b
unfolding memcmp
same_ip_sound a b h = Ip4-eq (ground arith) (ground arith) (ground arith) (ground arith)

pub same_ip_self : (a : Ip4) → same_ip a a ≡ true
unfolding memcmp
same_ip_self a = ground arith

same_ip_ne : (a b c : Ip4) → same_ip a b ≡ true → b ≢ c → same_ip a c ≡ false
same_ip_ne a b c h ne = elim (Bool-cases (same_ip a c)) [
  | inl t ↦ absurd (ne (sym (same_ip_sound a b h) ∙ same_ip_sound a c t))
  | inr f ↦ f
]

-- An entry for one address is for no other.
pub entry_for_ne : (e : ArpEntry) (a b : Ip4) → entry_for a e ≡ true → a ≢ b → entry_for b e ≡ false
entry_for_ne e a b h ne = elim (Bool-cases e.valid) [
  | inl t ↦ rw t (same_ip_ne e.ip a b (rw t at h) ne)
  | inr f ↦ rw f refl
]

-- A slot that is no entry for `ip`, before and after, does not matter to the lookup of `ip`.
pub lookup-set_other :
    (ip : Ip4) (es : List ArpEntry) (k : ℕ) (e : ArpEntry)
    → entry_for ip (get_or es k blank_entry) ≡ false
    → entry_for ip e ≡ false
    → arp_cache_lookup ip (set es k e) ≡ arp_cache_lookup ip es
unfolding arp_cache_lookup
lookup-set_other ip [] k e old new = refl
lookup-set_other ip (d ∷ es) zero e old new = rw old (rw new refl)
lookup-set_other ip (d ∷ es) (suc k) e old new =
    ap (λ r. if entry_for ip d then some d.mac else r) (lookup-set_other ip es k e old new)

-- Where no entry is for `ip`, a new one for it is found in any slot.
pub lookup-set_new :
    (ip : Ip4) (i : ℕ) (es : List ArpEntry) (k : ℕ) (e : ArpEntry)
    → find_entry ip i es ≡ none
    → k < length es
    → entry_for ip e ≡ true
    → arp_cache_lookup ip (set es k e) ≡ some e.mac
unfolding arp_cache_lookup find_entry
lookup-set_new ip i [] k e h lt new = absurd (omega arith)
lookup-set_new ip i (d ∷ es) zero e h lt new = rw new refl
lookup-set_new ip i (d ∷ es) (suc k) e h lt new = elim (Bool-cases (entry_for ip d)) [
  | inl t ↦ absurd (none-ne-some i (sym (rw t at h)))
  | inr f ↦ rw f (lookup-set_new ip (i + 1) es k e (rw f at h) (omega arith) new)
]

-- The slot that `find_entry` reports.
pub find_entry-Slot :
    (ip : Ip4) (i : ℕ) (es : List ArpEntry) (r : ℕ)
    → find_entry ip i es ≡ some r
    → (k : ℕ) × (r ≡ i + k)
      × (k < length es)
      × (entry_for ip (get_or es k blank_entry) ≡ true)
      × ((e : ArpEntry) → entry_for ip e ≡ true → arp_cache_lookup ip (set es k e) ≡ some e.mac)
unfolding find_entry arp_cache_lookup
find_entry-Slot ip i [] r h = absurd (none-ne-some r h)
find_entry-Slot ip i (d ∷ es) r h = elim (Bool-cases (entry_for ip d)) [
  | inl t ↦
      let e' : i ≡ r = some-injective i r (rw t at h) in
      (0, omega arith, omega arith, t, λ e new. rw new refl)
  | inr f ↦
      let (k, e, lt, t, found) = find_entry-Slot ip (i + 1) es r (rw f at h) in
      (suc k, omega arith, omega arith, t, λ e new. rw f (found e new))
]

-- All entries are valid and none is older than `a`.
abbrev pub NoneOlder : ℕ → List ArpEntry → Type 0
NoneOlder a [] = Unit {0}
NoneOlder a (e ∷ es) = (e.valid ≡ true) × (a ≤ e.age) × NoneOlder a es

pub NoneOlder-weaken : (a b : ℕ) (es : List ArpEntry) → a ≤ b → NoneOlder b es → NoneOlder a es
NoneOlder-weaken a b [] h p = tt
NoneOlder-weaken a b (e ∷ es) h (v, o, p) = (v, omega arith, NoneOlder-weaken a b es h p)

abbrev pub AgesFit : List ArpEntry → Type 0
AgesFit [] = Unit {0}
AgesFit (e ∷ es) = (e.age < 2 ^ 32) × AgesFit es

-- What `find_victim` from slot `i` on reports of the entries `es`.
pub data Victim (i oldest a : ℕ) (es : List ArpEntry) : ℕ → Type 0 where
  kept : NoneOlder a es → Victim i oldest a es oldest
  chosen :
      (r k : ℕ)
      → r ≡ i + k
      → k < length es
      → (get_or es k blank_entry).age < a
      → NoneOlder (get_or es k blank_entry).age es
      → Victim i oldest a es r
  free :
      (r k : ℕ)
      → r ≡ i + k
      → k < length es
      → (get_or es k blank_entry).valid ≡ false
      → Victim i oldest a es r

Victim-kept :
    (i oldest a r : ℕ) (e : ArpEntry) (es : List ArpEntry)
    → e.valid ≡ true
    → a ≤ e.age
    → Victim (i + 1) oldest a es r
    → Victim i oldest a (e ∷ es) r
Victim-kept i oldest a _ e es v o (kept p) = kept (v, o, p)
Victim-kept i oldest a _ e es v o (chosen r k e' lt y p) =
    chosen r (suc k) (omega arith) (omega arith) y (v, omega arith, p)
Victim-kept i oldest a _ e es v o (free r k e' lt f) = free r (suc k) (omega arith) (omega arith) f

Victim-older :
    (i oldest a r : ℕ) (e : ArpEntry) (es : List ArpEntry)
    → e.valid ≡ true
    → e.age < a
    → Victim (i + 1) i e.age es r
    → Victim i oldest a (e ∷ es) r
Victim-older i oldest a _ e es v y (kept p) =
    chosen i 0 (omega arith) (omega arith) y (v, omega arith, p)
Victim-older i oldest a _ e es v y (chosen r k e' lt y' p) =
    chosen r (suc k) (omega arith) (omega arith) (omega arith) (v, omega arith, p)
Victim-older i oldest a _ e es v y (free r k e' lt f) = free r (suc k) (omega arith) (omega arith) f

pub find_victim-Victim :
    (i oldest a : ℕ) (es : List ArpEntry) → Victim i oldest a es (find_victim i oldest a es)
unfolding find_victim
find_victim-Victim i oldest a [] = kept tt
find_victim-Victim i oldest a (e ∷ es) =
    if_intro (λ r. Victim i oldest a (e ∷ es) r) (not e.valid)
      (λ f. free i 0 (omega arith) (omega arith) (ground arith))
      (λ t.
        if_intro (λ r. Victim i oldest a (e ∷ es) r) (ltb e.age a)
          (λ y.
            Victim-older i oldest a _ e es (ground arith) (ltb→lt e.age a y)
              (find_victim-Victim (i + 1) i e.age es))
          (λ o.
            Victim-kept i oldest a _ e es (ground arith) (ground arith)
              (find_victim-Victim (i + 1) oldest a es)))
