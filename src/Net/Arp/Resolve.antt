-- ===== src/Net/Arp/Resolve.antt =====
-- `arp_resolve` ends: the clock ends the wait at the latest, and no resolution is left waiting.
use rtjn_kernel.Prelude.{
  ℕ, zero, suc, ◌+◌, ◌-◌, ◌^◌, ◌≡◌, refl, sym, ◌∙◌, Option, none, some, Bool, true, false,
  Bool-cases, Option-cases, if_intro, inl, inr, not, leb,
}
use mathlib.Core.Bool.{true≢false}
use rtjn_kernel.Prelude.Bits.{u32}
use rtjn_kernel.Net.Address.{Ip4}
use rtjn_kernel.Net.State.{Net, Mac}
use rtjn_kernel.Net.Arp.{
  arp_cache_lookup, arp_send_request, arp_resolve, await_reply, resolved, resolve_sent,
  arp_timeout_ticks,
}

module _ (rtl8139_poll : Net → Net) where
  -- The state after some polls.
  abbrev pub polls : ℕ → Net → Net
  polls zero s = s
  polls (suc n) s = polls n (rtl8139_poll s)

  -- The clock has reached the time-out.
  abbrev pub TimedOut : ℕ → Net → Type 0
  TimedOut start s = leb arp_timeout_ticks (u32 (u32 s.timer_ticks + 2 ^ 32 - start)) ≡ true

  Ends : Option Net → Type 0
  Ends r = (t : Net) × (r ≡ some t)

  -- A wait ends by the poll at which the clock has run out.
  await_reply-Ends :
      (n start : ℕ) (s : Net)
      → TimedOut start (polls (suc n) s)
      → Ends (await_reply rtl8139_poll (suc n) start s)
  unfolding await_reply Ends
  await_reply-Ends zero start s h =
      let polled = rtl8139_poll s in
      if_intro Ends (not s.arp_pending) (λ _. (s, refl))
        (λ _.
          if_intro Ends polled.cancel_input (λ _. (polled, refl))
            (λ _.
              if_intro Ends (leb arp_timeout_ticks (u32 (u32 polled.timer_ticks + 2 ^ 32 - start)))
                (λ _. (polled, refl)) (λ f. absurd (true≢false (sym h ∙ f)))))
  await_reply-Ends (suc n) start s h =
      let polled = rtl8139_poll s in
      if_intro Ends (not s.arp_pending) (λ _. (s, refl))
        (λ _.
          if_intro Ends polled.cancel_input (λ _. (polled, refl))
            (λ _.
              if_intro Ends (leb arp_timeout_ticks (u32 (u32 polled.timer_ticks + 2 ^ 32 - start)))
                (λ _. (polled, refl)) (λ _. await_reply-Ends n start polled h)))

  -- The resolution has an answer and waits no longer.
  abbrev pub Answered : Option (Option Mac × Net) → Type 0
  Answered r = (mac : Option Mac) × (t : Net) × (r ≡ some (mac, t)) × (t.arp_pending ≡ false)

  resolved-Answered : (t : Net) → Answered (some (resolved rtl8139_poll t))
  resolved-Answered t = elim (Bool-cases t.arp_pending) [
    | inl p ↦
        if_intro (λ r. Answered (some r)) t.arp_pending
          (λ _. (none, record t { arp_pending = false }, refl, refl))
          (λ f. absurd (true≢false (sym p ∙ f)))
    | inr f ↦
        if_intro (λ r. Answered (some r)) t.arp_pending (λ p. absurd (true≢false (sym p ∙ f)))
          (λ _. (some t.arp_pending_mac, t, refl, f))
  ]

  resolve_sent-Answered :
      (n start : ℕ) (sent : Bool × Net)
      → TimedOut start (polls (suc n) sent.1)
      → Answered (resolve_sent rtl8139_poll (suc n) start sent)
  unfolding Ends
  resolve_sent-Answered n start (false, s) h = (none, record s { arp_pending = false }, refl, refl)
  resolve_sent-Answered n start (true, s) h =
      let (t, e) = await_reply-Ends n start s h in rw (e, resolve_sent) (resolved-Answered t)

  -- The state in which the request has been sent.
  abbrev pub asked : Ip4 → Net → Bool × Net
  asked ip s = arp_send_request ip (record s { arp_pending = true; arp_pending_ip = ip })

  -- When no resolution waits before the call, and the clock has run out by the poll n + 1,
  -- arp_resolve returns after at most n + 1 polls with no resolution waiting.
  pub arp_resolve-Answered :
      (n : ℕ) (ip : Ip4) (s : Net)
      → s.arp_pending ≡ false
      → TimedOut (u32 s.timer_ticks) (polls (suc n) (asked ip s).1)
      → Answered (arp_resolve rtl8139_poll (suc n) ip s)
  unfolding arp_resolve
  arp_resolve-Answered n ip s idle h = elim (Option-cases (arp_cache_lookup ip s.arp_cache)) [
    | inl e ↦ rw (e, arp_resolve) (resolve_sent-Answered n (u32 s.timer_ticks) (asked ip s) h)
    | inr (mac, e) ↦ rw (e, arp_resolve) (some mac, s, refl, idle)
  ]
