-- ===== src/Compute/Agent/Buffer.antt =====
-- What the buffer of health events holds.
use mathlib.Core.List.{append-nil, append_assoc}
use ocelot.Prelude.{
  ℕ, suc, ◌+◌, ◌-◌, ◌≤◌, ◌<◌, ◌≡◌, refl, sym, ap, ◌∙◌, Bool, true, false, ◌||◌, ◌&&◌, List, [], ◌∷◌,
  ◌++◌, length, length-append, if◌then◌else◌, ltb, leb, ◌==◌, nat_eq, arith, Bool-cases, inl, inr,
}
use ocelot.Prelude.Bytes.{drop}
use ocelot.Compute.Agent.{
  HealthEvent, HealthBuffer, no_events, tail, push, push_all, drain, report, flush_health,
}

-- The last 100 of a list.
abbrev pub latest : List HealthEvent → List HealthEvent
latest es = drop (length es - 100) es

latest-cons :
    (x : HealthEvent) (xs : List HealthEvent) → 100 ≤ length xs → latest (x ∷ xs) ≡ latest xs
unfolding drop
latest-cons x xs h =
    let one_less : suc (length xs) - 100 ≡ suc (length xs - 100) = omega (arith, h) in
    ap (λ n. drop n (x ∷ xs)) one_less

latest-shift :
    (e : HealthEvent) (es old : List HealthEvent)
    → length old ≡ 100
    → latest ((tail old ++ (e ∷ [])) ++ es) ≡ latest (old ++ (e ∷ es))
latest-shift e es [] h = absurd (omega (arith, h))
latest-shift e es (x ∷ xs) h =
    ap latest (append_assoc xs (e ∷ []) es)
    ∙ sym (latest-cons x (xs ++ (e ∷ es)) (omega (arith, h, length-append xs (e ∷ es))))

-- One event more, in a buffer of at most 100.
record IsPushed (e : HealthEvent) (b u : HealthBuffer) : Type 0 where
  short : length u.events ≤ 100
  kept : (es : List HealthEvent) → latest (u.events ++ es) ≡ latest (b.events ++ (e ∷ es))
  flagged :
      (n : ℕ)
      → (u.overflow || ltb 100 (length u.events + n))
        ≡ (b.overflow || ltb 100 (length b.events + suc n))

length-tail : (old : List HealthEvent) → length old ≡ 100 → length (tail old) ≡ 99
length-tail [] h = absurd (omega (arith, h))
length-tail (x ∷ xs) h = omega (arith, h)

push-IsPushed :
    (e : HealthEvent) (b : HealthBuffer) → length b.events ≤ 100 → IsPushed e b (push e b)
unfolding push
push-IsPushed e b h = elim (Bool-cases (leb 100 (length b.events))) [
  | inl full ↦
      let all : length b.events ≡ 100 = ground (arith, h, full) in
      let fewer = length-tail b.events all in
      let again = length-append (tail b.events) (e ∷ []) in
      rw (push, full)
        (record {
          short = omega (arith, fewer, again);
          kept = λ es. latest-shift e es b.events all;
          flagged = λ n. ground (arith, all);
        })
  | inr room ↦
      let more = length-append b.events (e ∷ []) in
      rw (push, room)
        (record {
          short = ground (arith, room, more);
          kept = λ es. ap latest (append_assoc b.events (e ∷ []) es);
          flagged = λ n. ground (arith, more);
        })
]

push_all-from :
    (es : List HealthEvent) (b : HealthBuffer)
    → length b.events ≤ 100
    → ((push_all es b).events ≡ latest (b.events ++ es))
      × ((push_all es b).overflow ≡ (b.overflow || ltb 100 (length b.events + length es)))
unfolding push_all drop
push_all-from [] b h =
    let none_dropped : length b.events - 100 ≡ 0 = omega (arith, h) in
    (
      sym (ap latest (append-nil b.events) ∙ ap (λ n. drop n b.events) none_dropped),
      ground (arith, h),
    )
push_all-from (e ∷ es) b h =
    let p = push-IsPushed e b h in
    let (events, flag) = push_all-from es (push e b) p.short in
    (events ∙ p.kept es, flag ∙ p.flagged (length es))

-- A buffer that is empty at first holds the last 100 of the events that are pushed, in order, and its
-- flag tells whether there were more.
pub push_all-latest :
    (es : List HealthEvent)
    → ((push_all es no_events).events ≡ latest es)
      × ((push_all es no_events).overflow ≡ ltb 100 (length es))
push_all-latest es =
    let (events, flag) = push_all-from es no_events (omega arith) in (events, flag ∙ ground arith)

drain_full : (b : HealthBuffer) → (length b.events == 0) ≡ false → drain b ≡ (b, no_events)
unfolding drain
drain_full b h = rw (drain, h) refl

drain_empty : (b : HealthBuffer) → (length b.events == 0) ≡ true → drain b ≡ (no_events, b)
unfolding drain
drain_empty b h = rw (drain, h) refl

push_all-append :
    (es fs : List HealthEvent) (b : HealthBuffer)
    → push_all fs (push_all es b) ≡ push_all (es ++ fs) b
unfolding push_all
push_all-append [] fs b = refl
push_all-append (e ∷ es) fs b = push_all-append es fs (push e b)

report_full :
    (posted : HealthBuffer → Bool) (others : List HealthEvent) (b : HealthBuffer)
    → (length b.events == 0) ≡ false
    → report posted others (b, no_events)
      ≡ push_all (others ++ (if posted b then [] else b.events)) no_events
unfolding report
report_full posted others b h = elim (Bool-cases (posted b)) [
  | inl taken ↦ rw (report, h, taken) (ap (λ es. push_all es no_events) (sym (append-nil others)))
  | inr refused ↦ rw (report, h, refused) (push_all-append others b.events no_events)
]

flush_empty :
    (posted : HealthBuffer → Bool) (others : List HealthEvent) (b : HealthBuffer)
    → (length b.events == 0) ≡ true
    → flush_health posted others b ≡ b
unfolding flush_health report
flush_empty posted others b h = ap (report posted others) (drain_empty b h)

flush_full :
    (posted : HealthBuffer → Bool) (others : List HealthEvent) (b : HealthBuffer)
    → (length b.events == 0) ≡ false
    → flush_health posted others b
      ≡ push_all (others ++ (if posted b then [] else b.events)) no_events
unfolding flush_health
flush_full posted others b h =
    ap (report posted others) (drain_full b h) ∙ report_full posted others b h

-- A flush of a buffer that is not empty leaves in it the last 100 of these events: those that were
-- pushed during the request, and then, when it is not taken, those that it carried. So these come
-- after newer ones; and the flag tells only whether there were more than 100 of these, and not,
-- even when the request is not taken, that some were lost before. A flush of an empty buffer
-- changes nothing.
pub flush_health_lem :
    (posted : HealthBuffer → Bool) (others : List HealthEvent) (b : HealthBuffer)
    → let after = flush_health posted others b in
      let pushed = others ++ (if posted b then [] else b.events) in
      (length b.events ≡ 0 → after ≡ b)
      × (0 < length b.events
          → (after.events ≡ latest pushed) × (after.overflow ≡ ltb 100 (length pushed)))
flush_health_lem posted others b = (
  λ h. flush_empty posted others b ((nat_eq.equal_iff (length b.events) 0).1 h),
  λ h.
      rw (flush_full posted others b (ground (arith, h)))
        (push_all-latest (others ++ (if posted b then [] else b.events))),
)

nil_of : (es : List HealthEvent) → length es ≡ 0 → es ≡ []
nil_of [] h = refl
nil_of (e ∷ es) h = absurd (omega (arith, h))

latest_short : (es : List HealthEvent) → length es ≤ 100 → latest es ≡ es
unfolding drop
latest_short es h =
    let none_dropped : length es - 100 ≡ 0 = omega (arith, h) in ap (λ n. drop n es) none_dropped

-- With no event during the request, a flush of a buffer of at most 100 events empties it when the
-- request is taken; when it is not, the events are all kept, but the flag is not.
pub flush_health_alone :
    (posted : HealthBuffer → Bool) (b : HealthBuffer)
    → length b.events ≤ 100
    → let after = flush_health posted [] b in
      (after.events ≡ (if posted b then [] else b.events))
      × (after.overflow ≡ (b.overflow && length b.events == 0))
flush_health_alone posted b h = elim (Bool-cases (length b.events == 0)) [
  | inl empty ↦
      let gone = nil_of b.events ((nat_eq.equal_iff (length b.events) 0).0 empty) in
      rw (flush_empty posted [] b empty) (rw gone (ground arith), ground arith)
  | inr some_left ↦
      let (events, flag) = push_all-latest (if posted b then [] else b.events) in
      rw (flush_full posted [] b some_left) (
        events ∙ latest_short (if posted b then [] else b.events) (ground (arith, h)),
        flag ∙ ground (arith, h),
      )
]
