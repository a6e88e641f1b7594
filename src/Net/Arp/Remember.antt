-- ===== src/Net/Arp/Remember.antt =====
-- What `arp_cache_add` does to the lookups of kernel/net/network.c, and to a resolution that waits.
use rtjn_kernel.Prelude.{
  ℕ, zero, suc, ◌<◌, ◌≡◌, ◌≢◌, refl, sym, ap, ◌∙◌, arith, List, [], ◌∷◌, Option, none, some, true,
  false, Bool-cases, if_intro, inl, inr, get_or, set, length, ◌⊎◌, ◌&&◌,
}
use mathlib.Core.Option.{none-ne-some}
use mathlib.Core.Bool.{true≢false}
use rtjn_kernel.Net.Address.{Ip4}
use rtjn_kernel.Net.State.{Net, ArpEntry, Mac}
use rtjn_kernel.Net.Arp.{
  same_ip, entry_for, find_entry, find_victim, arp_cache_add, arp_cache_lookup, add_to, settle,
  refresh, new_entry, blank_entry, arp_cache_size,
}
use rtjn_kernel.Net.Arp.Cache.{
  same_ip_self, entry_for_ne, lookup-set_other, lookup-set_new, find_entry-Slot, NoneOlder,
  NoneOlder-weaken, AgesFit, Victim, kept, chosen, free, find_victim-Victim,
}

settle-cache : (ip : Ip4) (mac : Mac) (s : Net) → (settle ip mac s).arp_cache ≡ s.arp_cache
settle-cache ip mac s =
    if_intro (λ (t : Net). t.arp_cache ≡ s.arp_cache) (s.arp_pending && same_ip ip s.arp_pending_ip)
      (λ _. refl) (λ _. refl)

entry_for_new : (s : Net) (ip : Ip4) (mac : Mac) → entry_for ip (new_entry s ip mac) ≡ true
entry_for_new s ip mac = same_ip_self ip

Victim-lt :
    (es : List ArpEntry) (r : ℕ) → 0 < length es → Victim 0 0 0xffff_ffff es r → r < length es
Victim-lt es _ h (kept p) = h
Victim-lt es _ h (chosen r k e lt y p) = omega arith
Victim-lt es _ h (free r k e lt f) = omega arith

-- Once an address is added to an ARP cache of eight entries, the lookup of it answers its
-- hardware address.
pub arp_cache_add-lookup :
    (ip : Ip4) (mac : Mac) (s : Net)
    → length s.arp_cache ≡ arp_cache_size
    → arp_cache_lookup ip (arp_cache_add ip mac s).arp_cache ≡ some mac
unfolding arp_cache_add
arp_cache_add-lookup ip mac s h = go (find_entry ip 0 s.arp_cache) refl
  where
    go :
        (r : Option ℕ)
        → find_entry ip 0 s.arp_cache ≡ r
        → arp_cache_lookup ip (add_to ip mac s r).arp_cache ≡ some mac
    go none e =
        let new = new_entry s ip mac in
        let v = find_victim 0 0 0xffff_ffff s.arp_cache in
        let lt =
          Victim-lt s.arp_cache v (omega arith) (find_victim-Victim 0 0 0xffff_ffff s.arp_cache) in
        ap (arp_cache_lookup ip)
          (settle-cache ip mac (record s { arp_cache = set s.arp_cache v new }))
        ∙ lookup-set_new ip 0 s.arp_cache v new e lt (entry_for_new s ip mac)
    go (some i) e =
        let (k, i_k, lt, t, found) = find_entry-Slot ip 0 s.arp_cache i e in
        let same : i ≡ k = omega arith in
        rw same (found (refresh s mac (get_or s.arp_cache k blank_entry)) t)

-- The entry that had to go for a new one: no entry was free, and none was older.
abbrev pub Evicted : Ip4 → List ArpEntry → Type 0
Evicted ip es =
    (k : ℕ) × (k < length es)
    × (entry_for ip (get_or es k blank_entry) ≡ true)
    × NoneOlder (get_or es k blank_entry).age es

valid_of : (ip : Ip4) (e : ArpEntry) → entry_for ip e ≡ true → e.valid ≡ true
valid_of ip e h = elim (Bool-cases e.valid) [
  | inl t ↦ t
  | inr f ↦ absurd (true≢false (sym (rw f at h)))
]

Victim-Evicted :
    (ip : Ip4) (es : List ArpEntry) (r : ℕ)
    → 0 < length es
    → AgesFit es
    → Victim 0 0 0xffff_ffff es r
    → entry_for ip (get_or es r blank_entry) ≡ true
    → Evicted ip es
Victim-Evicted ip [] _ h fit (kept p) t = elim h [ ]
Victim-Evicted ip (e ∷ es) _ h fit (kept p) t =
    (0, h, t, NoneOlder-weaken e.age 0xffff_ffff (e ∷ es) (let lt = fit.0 in omega arith) p)
Victim-Evicted ip es _ h fit (chosen r k e lt y p) t =
    let same : r ≡ k = omega arith in (k, lt, rw same at t, p)
Victim-Evicted ip es _ h fit (free r k e lt f) t =
    let same : r ≡ k = omega arith in
    let valid = valid_of ip (get_or es k blank_entry) (rw same at t) in
    absurd (true≢false (sym valid ∙ f))

-- In a cache of eight entries whose ages are 32-bit words, every address other than the added
-- one is looked up as before, except that of an oldest entry of a cache with no free entry.
pub arp_cache_add-others :
    (ip ip' : Ip4) (mac : Mac) (s : Net)
    → length s.arp_cache ≡ arp_cache_size
    → AgesFit s.arp_cache
    → ip ≢ ip'
    → (arp_cache_lookup ip' (arp_cache_add ip mac s).arp_cache ≡ arp_cache_lookup ip' s.arp_cache)
      ⊎ Evicted ip' s.arp_cache
unfolding arp_cache_add
arp_cache_add-others ip ip' mac s h fit ne = go (find_entry ip 0 s.arp_cache) refl
  where
    go :
        (r : Option ℕ)
        → find_entry ip 0 s.arp_cache ≡ r
        → (arp_cache_lookup ip' (add_to ip mac s r).arp_cache ≡ arp_cache_lookup ip' s.arp_cache)
          ⊎ Evicted ip' s.arp_cache
    go none e =
        let new = new_entry s ip mac in
        let v = find_victim 0 0 0xffff_ffff s.arp_cache in
        elim (Bool-cases (entry_for ip' (get_or s.arp_cache v blank_entry))) [
          | inl t ↦ inr (
              Victim-Evicted ip' s.arp_cache v (omega arith) fit
                (find_victim-Victim 0 0 0xffff_ffff s.arp_cache) t)
          | inr f ↦ inl (
              ap (arp_cache_lookup ip')
                (settle-cache ip mac (record s { arp_cache = set s.arp_cache v new }))
              ∙ lookup-set_other ip' s.arp_cache v new f
                  (entry_for_ne new ip ip' (entry_for_new s ip mac) ne))
        ]
    go (some i) e =
        let (k, i_k, lt, t, found) = find_entry-Slot ip 0 s.arp_cache i e in
        let same : i ≡ k = omega arith in
        let old = get_or s.arp_cache k blank_entry in
        rw same (
          inl (
            lookup-set_other ip' s.arp_cache k (refresh s mac old) (entry_for_ne old ip ip' t ne)
              (entry_for_ne (refresh s mac old) ip ip' t ne)))

-- Where the lookup of an address fails, no entry is for it.
lookup_none-each :
    (ip : Ip4) (es : List ArpEntry) (k : ℕ)
    → arp_cache_lookup ip es ≡ none
    → entry_for ip (get_or es k blank_entry) ≡ false
unfolding arp_cache_lookup
lookup_none-each ip [] k h = refl
lookup_none-each ip (e ∷ es) zero h = elim (Bool-cases (entry_for ip e)) [
  | inl t ↦ absurd (none-ne-some e.mac (sym (rw t at h)))
  | inr f ↦ f
]
lookup_none-each ip (e ∷ es) (suc k) h = elim (Bool-cases (entry_for ip e)) [
  | inl t ↦ absurd (none-ne-some e.mac (sym (rw t at h)))
  | inr f ↦ lookup_none-each ip es k (rw f at h)
]

-- A resolution waits only for an address that the cache does not have.
abbrev pub Waiting : Net → Type 0
Waiting s = s.arp_pending ≡ true → arp_cache_lookup s.arp_pending_ip s.arp_cache ≡ none

-- `arp_cache_add` keeps the resolution in step with the cache: while one waits, its
-- address is not in the cache.
pub arp_cache_add-Waiting :
    (ip : Ip4) (mac : Mac) (s : Net) → Waiting s → Waiting (arp_cache_add ip mac s)
unfolding arp_cache_add
arp_cache_add-Waiting ip mac s w = go (find_entry ip 0 s.arp_cache) refl
  where
    same_ip-false :
        s.arp_pending ≡ true
        → (s.arp_pending && same_ip ip s.arp_pending_ip) ≡ false
        → same_ip ip s.arp_pending_ip ≡ false
    same_ip-false p f = rw p at f

    go : (r : Option ℕ) → find_entry ip 0 s.arp_cache ≡ r → Waiting (add_to ip mac s r)
    go none e =
        let new = new_entry s ip mac in
        let v = find_victim 0 0 0xffff_ffff s.arp_cache in
        if_intro Waiting (s.arp_pending && same_ip ip s.arp_pending_ip)
          (λ _ p. absurd (true≢false (sym p)))
          (λ f p.
            lookup-set_other s.arp_pending_ip s.arp_cache v new
              (lookup_none-each s.arp_pending_ip s.arp_cache v (w p)) (same_ip-false p f)
            ∙ w p)
    go (some i) e = λ p.
        let (k, i_k, lt, t, found) = find_entry-Slot ip 0 s.arp_cache i e in
        let same : i ≡ k = omega arith in
        let absent = lookup_none-each s.arp_pending_ip s.arp_cache k (w p) in
        let old = get_or s.arp_cache k blank_entry in
        rw same
          (lookup-set_other s.arp_pending_ip s.arp_cache k (refresh s mac old) absent absent ∙ w p)
