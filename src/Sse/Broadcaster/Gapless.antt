-- ===== src/Sse/Broadcaster/Gapless.antt =====
-- crates/rb-sse/src/broadcaster.rs: a client that subscribes misses nothing, whatever the other
-- threads do in between.
use rustacean.Common.{
  ℕ, String, ◌≡◌, refl, sym, ap, ◌∙◌, subst, ◌⊎◌, inl, inr, Option, none, some, List, [], ◌∷◌, ◌++◌,
}
use rustacean.Common.Every.{In, In-append, In-append_left, In-append_right}
use rustacean.Sse.Ring.{SseEnvelope, RingBuffer, new_ring, push, replay_after}
use rustacean.Sse.Ring.History.{push_all, pushed, replay_after_complete}
use rustacean.Sse.Broadcaster.{
  send_all, Broadcast, SseConfig, TenantState, new_state, Action, store, send, act, run,
  subscribe_to,
}

module _ (tokio : Broadcast) where
  abbrev pub stores : List (Action tokio) → List (ℕ × SseEnvelope)
  stores [] = []
  stores (store now e ∷ actions) = (now, e) ∷ stores actions
  stores (send e ∷ actions) = stores actions

  abbrev pub sends : List (Action tokio) → List SseEnvelope
  sends [] = []
  sends (store now e ∷ actions) = sends actions
  sends (send e ∷ actions) = e ∷ sends actions

  -- Each event is stored before it is sent; the list holds what is stored already.
  abbrev pub StoresFirst : List SseEnvelope → List (Action tokio) → Type 0
  StoresFirst stored [] = Unit {0}
  StoresFirst stored (store now e ∷ actions) = StoresFirst (e ∷ stored) actions
  StoresFirst stored (send e ∷ actions) = In e stored × StoresFirst stored actions

  run-ring :
      (actions : List (Action tokio)) (s : TenantState tokio)
      → (run tokio actions s).ring ≡ push_all (stores actions) s.ring
  unfolding run
  run-ring [] s = refl
  run-ring (store now e ∷ actions) s = run-ring actions (act tokio (store now e) s)
  run-ring (send e ∷ actions) s = run-ring actions (act tokio (send e) s)

  run-sender :
      (actions : List (Action tokio)) (s : TenantState tokio)
      → (run tokio actions s).sender ≡ send_all tokio.send (sends actions) s.sender
  unfolding run
  run-sender [] s = refl
  run-sender (store now e ∷ actions) s = run-sender actions (act tokio (store now e) s)
  run-sender (send e ∷ actions) s = run-sender actions (act tokio (send e) s)

  stored_first :
      (stored : List SseEnvelope) (actions : List (Action tokio)) (e : SseEnvelope)
      → StoresFirst stored actions
      → In e (sends actions)
      → In e stored ⊎ In e (pushed (stores actions))
  stored_first stored [] e w m = elim m [ ]
  stored_first stored (store now x ∷ actions) e w m =
      elim (stored_first (x ∷ stored) actions e w m) [
        | inl (inl q) ↦ inr (inl q)
        | inl (inr k) ↦ inl k
        | inr k ↦ inr (inr k)
      ]
  stored_first stored (send x ∷ actions) e w (inl q) = inl (subst (λ e. In e stored) (sym q) w.0)
  stored_first stored (send x ∷ actions) e w (inr m) = stored_first stored actions e w.1 m

  stores-append : (as' bs : List (Action tokio)) → stores (as' ++ bs) ≡ stores as' ++ stores bs
  stores-append [] bs = refl
  stores-append (store now e ∷ as') bs = ap (λ xs. (now, e) ∷ xs) (stores-append as' bs)
  stores-append (send e ∷ as') bs = stores-append as' bs

  sends-append : (as' bs : List (Action tokio)) → sends (as' ++ bs) ≡ sends as' ++ sends bs
  sends-append [] bs = refl
  sends-append (store now e ∷ as') bs = sends-append as' bs
  sends-append (send e ∷ as') bs = ap (λ xs. e ∷ xs) (sends-append as' bs)

  push_all-append :
      (xs ys : List (ℕ × SseEnvelope)) (ring : RingBuffer)
      → push_all (xs ++ ys) ring ≡ push_all ys (push_all xs ring)
  push_all-append [] ys ring = refl
  push_all-append ((now, e) ∷ xs) ys ring = push_all-append xs ys (push now e ring)

  pushed-append : (xs ys : List (ℕ × SseEnvelope)) → pushed (xs ++ ys) ≡ pushed xs ++ pushed ys
  pushed-append [] ys = refl
  pushed-append ((now, e) ∷ xs) ys = ap (λ es. e ∷ es) (pushed-append xs ys)

  -- What stands before a part of a run is stored first, too.
  StoresFirst-append :
      (stored : List SseEnvelope) (as' bs : List (Action tokio))
      → StoresFirst stored (as' ++ bs)
      → StoresFirst stored as'
  StoresFirst-append stored [] bs w = tt
  StoresFirst-append stored (store now e ∷ as') bs w = StoresFirst-append (e ∷ stored) as' bs w
  StoresFirst-append stored (send e ∷ as') bs w = (w.0, StoresFirst-append stored as' bs w.1)

  -- An event that a client has: it knew it, it is in the replay, or it comes through the channel.
  pub record Reaches (e : SseEnvelope) (last_id : String) (history replay live : List SseEnvelope)
      : Type 0 where
    pub known : List SseEnvelope
    pub last : SseEnvelope
    pub cut : history ≡ known ++ (last ∷ replay)
    pub last_has_id : last.id ≡ last_id
    pub reaches : In e (known ++ (last ∷ [])) ⊎ (In e replay ⊎ In e live)

  split_known :
      (known replay : List SseEnvelope) (last e : SseEnvelope)
      → In e (known ++ (last ∷ replay))
      → In e (known ++ (last ∷ [])) ⊎ In e replay
  split_known known replay last e m = elim (In-append e known (last ∷ replay) m) [
    | inl k ↦ inl (In-append_left e known (last ∷ []) k)
    | inr (inl q) ↦ inl (In-append_right e known (last ∷ []) (inl q))
    | inr (inr k) ↦ inr k
  ]

module _ (tokio : Broadcast) where
  sent_stored :
      (before between after : List (Action tokio)) (e : SseEnvelope)
      → StoresFirst tokio [] (before ++ (between ++ after))
      → In e (sends tokio before)
      → In e (pushed (stores tokio before ++ stores tokio between))
  sent_stored before between after e w m =
      elim (stored_first tokio [] before e (StoresFirst-append tokio [] before (between ++ after) w)
        m) [
          | inl k ↦ elim k [ ]
          | inr k ↦
              subst (In e) (sym (pushed-append tokio (stores tokio before) (stores tokio between)))
                (In-append_left e (pushed (stores tokio before)) (pushed (stores tokio between)) k)
        ]

  live_of :
      (before between after : List (Action tokio)) (s : TenantState tokio) (ring : RingBuffer)
      → tokio.received
          (tokio.subscribe s.sender)
          (run tokio after (record (run tokio between s) { ring = ring })).sender
        ≡ sends tokio between ++ sends tokio after
  live_of before between after s ring =
      ap (tokio.received (tokio.subscribe s.sender)) (
        run-sender tokio after (record (run tokio between s) { ring = ring })
        ∙ ap (send_all tokio.send (sends tokio after)) (run-sender tokio between s)
        ∙ sym (send_all-append (sends tokio between) (sends tokio after) s.sender))
      ∙ tokio.received-subscribe s.sender (sends tokio between ++ sends tokio after)
    where
      send_all-append :
          (es fs : List SseEnvelope) (c : tokio.Channel)
          → send_all tokio.send (es ++ fs) c ≡ send_all tokio.send fs (send_all tokio.send es c)
      send_all-append [] fs c = refl
      send_all-append (e ∷ es) fs c = send_all-append es fs (tokio.send e c)

-- A client subscribes to a tenant after the steps `before`, its lookup of the id happens after the
-- steps `between`, and the steps `after` follow; all these are the pushes and sends of any number of
-- publishers in any order, in which each event is pushed before it is sent. When the lookup finds the
-- id, then every event that was sent up to the end was pushed no later than an event with the id, or
-- stands in the replay, or comes through the channel of the client, which must not lag.
pub subscribe_to-Reaches :
    (tokio : Broadcast) (cfg : SseConfig) (before between after : List (Action tokio)) (now : ℕ)
    (last_id : String) (es : List SseEnvelope) (e : SseEnvelope)
    → StoresFirst tokio [] (before ++ (between ++ after))
    → (replay_after now last_id (run tokio between (run tokio before (new_state tokio cfg))).ring).0
      ≡ some es
    → In e (sends tokio (before ++ (between ++ after)))
    → (let s = run tokio before (new_state tokio cfg) in
        let (rx, replay, s') = subscribe_to tokio now (some last_id) between s in
        Reaches tokio e last_id
          (pushed (stores tokio before ++ stores tokio between))
          replay
          (tokio.received rx (run tokio after s').sender))
unfolding subscribe_to
subscribe_to-Reaches tokio cfg before between after now last_id es e w found m =
    let s = run tokio before (new_state tokio cfg) in
    let ring : (run tokio between s).ring
        ≡ push_all (stores tokio before ++ stores tokio between)
            (new_ring cfg.ring_capacity cfg.ring_ttl) =
      run-ring tokio between s
      ∙ ap (push_all (stores tokio between)) (run-ring tokio before (new_state tokio cfg))
      ∙ sym (push_all-append tokio (stores tokio before) (stores tokio between) _) in
    let (known, last, cut, i) =
      replay_after_complete (stores tokio before ++ stores tokio between) cfg.ring_capacity
        cfg.ring_ttl now last_id es (ap (λ r. (replay_after now last_id r).0) (sym ring) ∙ found) in
    let here : (elim (replay_after now last_id (run tokio between s).ring).0
          as (λ x. List SseEnvelope) [ none ↦ [] | some es ↦ es ])
        ≡ es =
      ap
        (λ (f : Option (List SseEnvelope)). elim f as (λ x. List SseEnvelope) [
          | none ↦ []
          | some es ↦ es
        ])
        found in
    record {
      known = known;
      last = last;
      cut = cut ∙ ap (λ es. known ++ (last ∷ es)) (sym here);
      last_has_id = i;
      reaches =
          elim (In-append e (sends tokio before) (sends tokio (between ++ after))
            (subst (In e) (sends-append tokio before (between ++ after)) m)) [
              | inl k ↦
                  elim (split_known tokio known es last e
                    (subst (In e) cut (sent_stored tokio before between after e w k))) [
                      | inl x ↦ inl x
                      | inr x ↦ inr (inl (subst (In e) (sym here) x))
                    ]
              | inr k ↦ inr (
                  inr (
                    subst (In e)
                      (sends-append tokio between after
                        ∙ sym (live_of tokio before between after s _))
                      k))
            ];
    }
