-- ===== src/Sse/Ring/History.antt =====
-- crates/rb-sse/src/broadcaster.rs: the ring holds the end of what was pushed.
use mathlib.Core.List.{append_assoc}
use rustacean.Common.{
  ℕ, suc, ◌≤◌, max, String, ◌≡◌, refl, sym, ap, ◌∙◌, subst, inl, inr, some, List, [], ◌∷◌, ◌++◌,
  length, length-append, leb, if◌then◌else◌, arith, Bool-cases,
}
use rustacean.Sse.Ring.{
  SseEnvelope, RingBuffer, new_ring, is_expired, evict, evict_expired, pop_front, push,
  events_after, replay_after,
}
use text.Mathlib.Text.{◌==◌}
use text.Mathlib.TextEquality.{eq_iff}

-- A list is the end of another.
abbrev pub IsEndOf : List SseEnvelope → List SseEnvelope → Type 0
IsEndOf es history = (older : List SseEnvelope) × (history ≡ older ++ es)

pub evict-IsEndOf : (now ttl : ℕ) (es : List SseEnvelope) → IsEndOf (evict now ttl es) es
unfolding evict
evict-IsEndOf now ttl [] = ([], refl)
evict-IsEndOf now ttl (e ∷ es) = elim (Bool-cases (is_expired now ttl e)) [
  | inl h ↦ let (older, q) = evict-IsEndOf now ttl es in (e ∷ older, ap (λ es. e ∷ es) q ∙ rw h)
  | inr h ↦ ([], rw h)
]

IsEndOf-trans : {a b c : List SseEnvelope} → IsEndOf a b → IsEndOf b c → IsEndOf a c
IsEndOf-trans {a} (older, p) (more, q) =
    (more ++ older, q ∙ ap (λ es. more ++ es) p ∙ sym (append_assoc more older a))

IsEndOf-snoc :
    {es history : List SseEnvelope} (e : SseEnvelope)
    → IsEndOf es history
    → IsEndOf (es ++ (e ∷ [])) (history ++ (e ∷ []))
IsEndOf-snoc {es} e (older, p) = (older, ap (λ h. h ++ (e ∷ [])) p ∙ append_assoc older es (e ∷ []))

pop_front-IsEndOf : (es : List SseEnvelope) → IsEndOf (pop_front es) es
pop_front-IsEndOf [] = ([], refl)
pop_front-IsEndOf (e ∷ es) = (e ∷ [], refl)

-- The pushes of a run, each with the time at which it happens.
abbrev pub push_all : List (ℕ × SseEnvelope) → RingBuffer → RingBuffer
push_all [] ring = ring
push_all ((now, e) ∷ pushes) ring = push_all pushes (push now e ring)

abbrev pub pushed : List (ℕ × SseEnvelope) → List SseEnvelope
pushed [] = []
pushed ((now, e) ∷ pushes) = e ∷ pushed pushes

pub push-IsEndOf :
    (now : ℕ) (e : SseEnvelope) (ring : RingBuffer) (history : List SseEnvelope)
    → IsEndOf ring.buf history
    → IsEndOf (push now e ring).buf (history ++ (e ∷ []))
unfolding push evict_expired
push-IsEndOf now e ring history h =
    let live = IsEndOf-trans (evict-IsEndOf now ring.ttl ring.buf) h in
    elim (Bool-cases (leb ring.cap (length (evict now ring.ttl ring.buf)))) [
      | inl q ↦ rw q (IsEndOf-snoc e (IsEndOf-trans (pop_front-IsEndOf _) live))
      | inr q ↦ rw q (IsEndOf-snoc e live)
    ]

length-evict-le : (now ttl : ℕ) (es : List SseEnvelope) → length (evict now ttl es) ≤ length es
unfolding evict
length-evict-le now ttl [] = omega arith
length-evict-le now ttl (e ∷ es) = elim (Bool-cases (is_expired now ttl e)) [
  | inl h ↦ let k = length-evict-le now ttl es in rw h (omega arith)
  | inr h ↦ rw h (omega arith)
]

-- The ring never holds more than its capacity, or one event if the capacity is zero.
pub length-push-le :
    (now : ℕ) (e : SseEnvelope) (ring : RingBuffer)
    → length ring.buf ≤ max 1 ring.cap
    → length (push now e ring).buf ≤ max 1 ring.cap
unfolding push evict_expired
length-push-le now e ring h =
    bound ring.cap (evict now ring.ttl ring.buf)
      (let k = length-evict-le now ring.ttl ring.buf in omega arith)
  where
    bound :
        (cap : ℕ) (live : List SseEnvelope)
        → length live ≤ max 1 cap
        → length ((if leb cap (length live) then pop_front live else live) ++ (e ∷ [])) ≤ max 1 cap
    bound cap [] k = elim (Bool-cases (leb cap 0)) [
      | inl q ↦ rw q (omega arith)
      | inr q ↦ rw q (omega arith)
    ]
    bound cap (x ∷ live) k = elim (Bool-cases (leb cap (suc (length live)))) [
      | inl q ↦ let l = length-append live (e ∷ []) in rw q (omega arith)
      | inr q ↦ let l = length-append live (e ∷ []) in rw q (ground arith)
    ]

push_all-keeps :
    (pushes : List (ℕ × SseEnvelope)) (ring : RingBuffer) (history : List SseEnvelope)
    → IsEndOf ring.buf history
    → length ring.buf ≤ max 1 ring.cap
    → IsEndOf (push_all pushes ring).buf (history ++ pushed pushes)
      × (length (push_all pushes ring).buf ≤ max 1 ring.cap)
unfolding push
push_all-keeps [] ring history h k = (subst (IsEndOf ring.buf) (append_nil history) h, k)
  where
    append_nil : (es : List SseEnvelope) → es ≡ es ++ []
    append_nil [] = refl
    append_nil (e ∷ es) = ap (λ es. e ∷ es) (append_nil es)
push_all-keeps ((now, e) ∷ pushes) ring history h k =
    let (x, y) =
      push_all-keeps pushes (push now e ring) (history ++ (e ∷ []))
        (push-IsEndOf now e ring history h) (length-push-le now e ring k) in
    (
      subst (IsEndOf (push_all pushes (push now e ring)).buf)
          (append_assoc history (e ∷ []) (pushed pushes)) x,
      y,
    )

-- After any pushes, at any times, the ring of a new buffer holds the last ones of the events that were
-- pushed, in their order and without a gap, and at most as many as its capacity, or one if that is
-- zero.
pub push_all-IsEndOf :
    (pushes : List (ℕ × SseEnvelope)) (cap ttl : ℕ)
    → (let ring = push_all pushes (new_ring cap ttl) in
        IsEndOf ring.buf (pushed pushes) × (length ring.buf ≤ max 1 cap))
push_all-IsEndOf pushes cap ttl =
    push_all-keeps pushes (new_ring cap ttl) [] ([], refl) (omega arith)

pub events_after-some :
    (last_id : String) (es rest : List SseEnvelope)
    → events_after last_id es ≡ some rest
    → (before : List SseEnvelope) × (l : SseEnvelope) × (es ≡ before ++ (l ∷ rest))
      × (l.id ≡ last_id)
unfolding events_after
events_after-some last_id [] rest h = cc
events_after-some last_id (e ∷ es) rest h = elim (Bool-cases (e.id == last_id)) [
  | inl q ↦
      let r : some es ≡ some rest = rw q at h in
      ([], e, ap (λ es. e ∷ es) (some_injective r), (eq_iff e.id last_id).0 q)
  | inr q ↦
      let r : events_after last_id es ≡ some rest = rw q at h in
      let (before, l, p, i) = events_after-some last_id es rest r in
      (e ∷ before, l, ap (λ es. e ∷ es) p, i)
]
  where
    some_injective : {a b : List SseEnvelope} → some a ≡ some b → a ≡ b
    some_injective r = cc

-- When the replay after an id answers, then it answers with all the events that were pushed after an
-- event with that id.
pub replay_after_complete :
    (pushes : List (ℕ × SseEnvelope)) (cap ttl now : ℕ) (last_id : String) (es : List SseEnvelope)
    → (replay_after now last_id (push_all pushes (new_ring cap ttl))).0 ≡ some es
    → (older : List SseEnvelope) × (l : SseEnvelope) × (pushed pushes ≡ older ++ (l ∷ es))
      × (l.id ≡ last_id)
unfolding replay_after evict_expired
replay_after_complete pushes cap ttl now last_id es h =
    let ring = push_all pushes (new_ring cap ttl) in
    let (before, l, p, i) = events_after-some last_id (evict now ring.ttl ring.buf) es h in
    let (older, q) =
      IsEndOf-trans (evict-IsEndOf now ring.ttl ring.buf) (push_all-IsEndOf pushes cap ttl).0 in
    (older ++ before, l, q ∙ ap (λ es. older ++ es) p ∙ sym (append_assoc older before (l ∷ es)), i)
