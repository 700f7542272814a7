-- ===== src/StreamQueue/Reclaimed.antt =====
-- `autoClaimPending` of backend/src/redis/streamQueue.ts: which messages it takes from consumers that have
-- been silent for too long.
use event_relay.Base.{
  ℕ, ◌+◌, ◌≤◌, ◌<◌, ◌≡◌, refl, Bool, true, false, Bool-cases, leb, List, [], ◌∷◌, any, map, take,
  update, length, All, All-imp, All-take, All-both, Text, inl, inr, arith,
}
use event_relay.Store.{World, Redis, Claim, StreamMessage, has_text, pure, recover, continue}
use event_relay.Store.Atomic.{Ends, attempt_rule}
use event_relay.StreamQueue.Entries.{ReadMessage}
use event_relay.StreamQueue.Reads.{messages_claimed, auto_claim_pending}
use event_relay.StreamQueue.Group.{
  is_claim_of, is_idle, is_stranded, stranded, reclaimed, claim_stranded, group_commands,
}
use event_relay.StreamQueue.Fresh.{select-All, length-take-le, as_read, parse_raw_entries_all}

-- A message whose claims were renewed is not idle.
not_idle :
    (consumer : Text) (now min_idle : ℕ) (e : StreamMessage) (chosen : Claim → Bool)
    (claims : List Claim)
    → 0 < min_idle
    → ((c : Claim) → is_claim_of e c ≡ true → chosen c ≡ true)
    → any (is_idle now min_idle e) (update chosen (reclaimed consumer now) claims) ≡ false
not_idle consumer now min_idle e chosen [] h all_chosen = refl
not_idle consumer now min_idle e chosen (c ∷ cs) h all_chosen =
    let late : leb (now + min_idle) now ≡ false = ground (arith, h) in
    let rest = not_idle consumer now min_idle e chosen cs h all_chosen in
    elim (Bool-cases (is_claim_of e c)) [
      | inl t ↦ rw (all_chosen c t, t, late) rest
      | inr t ↦ elim (Bool-cases (chosen c)) [ inl u ↦ rw (u, t) rest | inr u ↦ rw (u, t) rest ]
    ]

-- The claims of a message that is taken are among those that are renewed.
renewed :
    (taken : List StreamMessage)
    → All
        (λ e. (c : Claim) → is_claim_of e c ≡ true → any (λ x. is_claim_of x c) taken ≡ true)
        taken
renewed [] = tt
renewed (e ∷ es) = (
  λ c h. rw h refl,
  All-imp (λ x. (c : Claim) → is_claim_of x c ≡ true → any (λ y. is_claim_of y c) es ≡ true) _ es
      (λ x k c h. ground (arith, k c h)) (renewed es),
)

module _ (uuid_text : ℕ → Text) (stream consumer : Text) (min_idle count : ℕ) (w : World) where
  -- The jobs of at most `count` messages, all of them stranded before and none after; and the entries are
  -- as they were.
  abbrev pub Recovered : List ReadMessage → World → Type 0
  Recovered messages v =
      (es : List StreamMessage) × (messages ≡ map (as_read uuid_text stream) es)
      × (length es ≤ count)
      × All
          (λ (e : StreamMessage).
            (is_stranded stream w.now min_idle w.redis e ≡ true)
            × (is_stranded stream w.now min_idle v.redis e ≡ false))
          es
      × (v.redis.entries ≡ w.redis.entries)
      × (v.db ≡ w.db)

  abbrev taken : List StreamMessage
  taken = take count (stranded stream w.now min_idle count w.redis)

  abbrev redis_after : Redis
  redis_after = record (w.redis) {
    claims =
        update (λ c. any (λ e. is_claim_of e c) taken) (reclaimed consumer w.now) w.redis.claims;
  }

  taken-Recovered :
      0 < min_idle
      → All
          (λ (e : StreamMessage).
            (is_stranded stream w.now min_idle w.redis e ≡ true)
            × (is_stranded stream w.now min_idle redis_after e ≡ false))
          taken
  taken-Recovered h =
      All-imp
        (λ (e : StreamMessage).
          (is_stranded stream w.now min_idle w.redis e ≡ true)
          × ((c : Claim) → is_claim_of e c ≡ true → any (λ x. is_claim_of x c) taken ≡ true))
        _ taken
        (λ e k. (
          k.0,
          let idle_no_more =
                not_idle consumer w.now min_idle e (λ c. any (λ x. is_claim_of x c) taken)
                  w.redis.claims h k.1 in
              ground (arith, idle_no_more),
        ))
        (All-both (λ e. is_stranded stream w.now min_idle w.redis e ≡ true) _ taken
          (All-take (λ e. is_stranded stream w.now min_idle w.redis e ≡ true) count _
            (select-All (is_stranded stream w.now min_idle w.redis) _))
          (renewed taken))

  -- On a consumer group as Redis documents it: whichever call fails, it returns, with the jobs as they
  -- were published, at most `count` of them. What it hands out was stranded: handed out to some consumer
  -- for at least the idle time, which is not 0, and not acknowledged; and it is not handed out again
  -- before it has been idle again.
  pub auto_claim_pending-Recovered :
      0 < min_idle
      → Ends Recovered
          (λ v. ⊥)
          (auto_claim_pending (group_commands uuid_text) stream consumer min_idle count w)
  unfolding auto_claim_pending group_commands claim_stranded
  auto_claim_pending-Recovered h =
      attempt_rule
        (λ r.
          Ends Recovered (λ v. ⊥)
            (recover (continue r (λ response. pure (messages_claimed stream response))) (pure [])))
        _ w.faults w (λ rest. ([], refl, omega arith, tt, refl, refl))
        (λ rest. elim (Bool-cases (has_text stream w.redis.groups)) [
          | inl t ↦ rw t (
            taken,
            parse_raw_entries_all uuid_text stream taken,
            length-take-le count _,
            taken-Recovered h,
            refl,
            refl,
          )
          | inr t ↦ rw t ([], refl, omega arith, tt, refl, refl)
        ])
