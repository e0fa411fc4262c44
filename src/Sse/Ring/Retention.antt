-- ===== src/Sse/Ring/Retention.antt =====
-- crates/rb-sse/src/broadcaster.rs: which events the ring still has.
use rustacean.Common.{
  ℕ, suc, ◌+◌, ◌≤◌, ◌<◌, ◌≡◌, refl, sym, ap, ◌∙◌, subst, inl, inr, false, some, List, [], ◌∷◌, ◌++◌,
  length, length-append, leb, if◌then◌else◌, arith, Bool-cases,
}
use rustacean.Common.Every.{Every}
use rustacean.Sse.Ring.{
  SseEnvelope, RingBuffer, is_expired, evict, evict_expired, pop_front, push, events_after,
  replay_after,
}
use rustacean.Sse.Ring.History.{push_all}
use text.Mathlib.Text.{◌==◌}
use text.Mathlib.TextEquality.{eq_iff}

-- The event stands in the list, with so many behind it.
abbrev Stands : SseEnvelope → ℕ → List SseEnvelope → Type 0
Stands l n es =
    (older : List SseEnvelope) × (newer : List SseEnvelope) × (es ≡ older ++ (l ∷ newer))
    × (length newer ≡ n)

Stands-cons :
    {l : SseEnvelope} {n : ℕ} {es : List SseEnvelope} (e : SseEnvelope)
    → Stands l n es
    → Stands l n (e ∷ es)
Stands-cons e (older, newer, p, q) = (e ∷ older, newer, ap (λ es. e ∷ es) p, q)

evict-Stands :
    (now ttl : ℕ) (l : SseEnvelope) (older newer : List SseEnvelope)
    → is_expired now ttl l ≡ false
    → Stands l (length newer) (evict now ttl (older ++ (l ∷ newer)))
unfolding evict
evict-Stands now ttl l [] newer h = ([], newer, rw h, refl)
evict-Stands now ttl l (e ∷ older) newer h = elim (Bool-cases (is_expired now ttl e)) [
  | inl q ↦ rw q (evict-Stands now ttl l older newer h)
  | inr q ↦ (e ∷ older, newer, rw q, refl)
]

length-middle :
    (older : List SseEnvelope) (l : SseEnvelope) (newer : List SseEnvelope)
    → length newer < length (older ++ (l ∷ newer))
length-middle [] l newer = omega arith
length-middle (e ∷ older) l newer = let h = length-middle older l newer in omega arith

snoc :
    (older : List SseEnvelope) (l : SseEnvelope) (newer : List SseEnvelope) (e : SseEnvelope)
    → Stands l (suc (length newer)) ((older ++ (l ∷ newer)) ++ (e ∷ []))
snoc [] l newer e =
    ([], newer ++ (e ∷ []), refl, (let h = length-append newer (e ∷ []) in omega arith))
snoc (x ∷ older) l newer e = Stands-cons x (snoc older l newer e)

-- A full ring gives up its front, which is not the event while there is room behind it.
make_room-Stands :
    (cap : ℕ) (l e : SseEnvelope) (older newer : List SseEnvelope)
    → suc (length newer) < cap
    → (let live = older ++ (l ∷ newer) in
        Stands l
          (suc (length newer))
          ((if leb cap (length live) then pop_front live else live) ++ (e ∷ [])))
make_room-Stands cap l e [] newer h =
    let q : leb cap (suc (length newer)) ≡ false = ground arith in rw q (snoc [] l newer e)
make_room-Stands cap l e (x ∷ older) newer h =
    elim (Bool-cases (leb cap (length (x ∷ (older ++ (l ∷ newer)))))) [
      | inl q ↦ rw q (snoc older l newer e)
      | inr q ↦ rw q (Stands-cons x (snoc older l newer e))
    ]

push-Stands :
    (now n : ℕ) (l e : SseEnvelope) (ring : RingBuffer)
    → Stands l n ring.buf
    → suc n < ring.cap
    → is_expired now ring.ttl l ≡ false
    → Stands l (suc n) (push now e ring).buf
unfolding push evict_expired
push-Stands now n l e ring (older, newer, p, q) h fresh =
    let (older', newer', p', q') = evict-Stands now ring.ttl l older newer fresh in
    let live : evict now ring.ttl ring.buf ≡ older' ++ (l ∷ newer') =
      ap (evict now ring.ttl) p ∙ p' in
    subst
      (λ live.
        Stands l (suc n)
          ((if leb ring.cap (length live) then pop_front live else live) ++ (e ∷ [])))
      (sym live)
      (subst
        (λ k. Stands l (suc k) (
          (if leb ring.cap (length (older' ++ (l ∷ newer')))
            then pop_front (older' ++ (l ∷ newer'))
            else older' ++ (l ∷ newer'))
          ++ (e ∷ [])))
        (q' ∙ q) (make_room-Stands ring.cap l e older' newer' (omega arith)))

push_all-Stands :
    (pushes : List (ℕ × SseEnvelope)) (n : ℕ) (l : SseEnvelope) (ring : RingBuffer)
    → Stands l n ring.buf
    → n + length pushes < ring.cap
    → Every (λ (x : ℕ × SseEnvelope). is_expired x.0 ring.ttl l ≡ false) pushes
    → Stands l (n + length pushes) (push_all pushes ring).buf
unfolding push
push_all-Stands [] n l ring s h fresh =
    let (older, newer, p, q) = s in (older, newer, p, omega arith)
push_all-Stands ((now, e) ∷ pushes) n l ring s h fresh =
    let (older, newer, p, q) =
      push_all-Stands pushes (suc n) l (push now e ring)
        (push-Stands now n l e ring s (omega arith) fresh.0) (omega arith) fresh.1 in
    (older, newer, p, omega arith)

events_after-finds :
    (l : SseEnvelope) (older newer : List SseEnvelope)
    → (es : List SseEnvelope) × (events_after l.id (older ++ (l ∷ newer)) ≡ some es)
unfolding events_after
events_after-finds l [] newer = (newer, rw ((eq_iff l.id l.id).1 refl))
events_after-finds l (e ∷ older) newer = elim (Bool-cases (e.id == l.id)) [
  | inl q ↦ (older ++ (l ∷ newer), rw q)
  | inr q ↦ let (es, p) = events_after-finds l older newer in (es, rw q p)
]

-- An event that was pushed can be replayed from as long as fewer events than the capacity were pushed
-- after it and its time to live was not over at any of these pushes nor is it now; whatever the ring
-- held before.
pub replay_after-finds :
    (pushes : List (ℕ × SseEnvelope)) (l : SseEnvelope) (at now : ℕ) (ring : RingBuffer)
    → suc (length pushes) ≤ ring.cap
    → Every (λ (x : ℕ × SseEnvelope). is_expired x.0 ring.ttl l ≡ false) pushes
    → is_expired now ring.ttl l ≡ false
    → (es : List SseEnvelope) × ((replay_after now l.id (push_all pushes (push at l ring))).0
        ≡ some es)
unfolding replay_after evict_expired push
replay_after-finds pushes l at now ring h fresh live =
    let (older, newer, p, q) =
      push_all-Stands pushes 0 l (push at l ring) (last_one _) (omega arith) fresh in
    let (older', newer', p', q') = evict-Stands now ring.ttl l older newer live in
    let ring' = push_all pushes (push at l ring) in
    let (es, f) = events_after-finds l older' newer' in
    (
      es,
      ap (λ ttl. events_after l.id (evict now ttl ring'.buf)) (push_all-ttl pushes (push at l ring))
          ∙ ap (events_after l.id) (ap (evict now ring.ttl) p ∙ p')
          ∙ f,
    )
  where
    last_one : (es : List SseEnvelope) → Stands l 0 (es ++ (l ∷ []))
    last_one es = (es, [], refl, refl)

    push_all-ttl :
        (pushes : List (ℕ × SseEnvelope)) (r : RingBuffer) → (push_all pushes r).ttl ≡ r.ttl
    push_all-ttl [] r = refl
    push_all-ttl ((now, e) ∷ pushes) r = push_all-ttl pushes (push now e r)
