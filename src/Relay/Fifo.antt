-- ===== src/Relay/Fifo.antt =====
-- services/agent-runner/src/event_relay: what leaves the buffer, under any interleaving.
use rustacean.Common.{
  append_nil, append_assoc, ℕ, ◌+◌, ◌≤◌, ◌≡◌, refl, sym, ap, ◌∙◌, subst, Bool, true, false, List,
  [], ◌∷◌, ◌++◌, length, take, drop, min, max, arith, length-append, length-drop, take-append-drop,
  leb, if◌then◌else◌,
}
use rustacean.Relay.{RelayItem, Relay, spawn, pop_oldest, send, Wake, wake_up, take_batch}

-- A sender sends, the loop wakes or takes a batch.
pub data Act : Type 0 where
  sends : RelayItem → Act
  wakes : Wake → Act
  takes : Act

-- What leaves the buffer: an item that is evicted, or a batch.
pub data Out : Type 0 where
  evicted : RelayItem → Out
  batch : List RelayItem → Out

abbrev oldest : List RelayItem → List Out
oldest [] = []
oldest (item ∷ items) = evicted item ∷ []

-- What a send evicts.
abbrev pub evicts : Relay → List Out
evicts r = if leb r.capacity (length r.buffer) then oldest r.buffer else []

abbrev pub perform : Act → Relay → Relay × List Out
perform (sends item) r = (send item r, evicts r)
perform (wakes w) r = ((wake_up w r).0, [])
perform takes r = ((take_batch r).1, batch (take_batch r).0 ∷ [])

abbrev pub run : List Act → Relay → Relay × List Out
run [] r = (r, [])
run (a ∷ acts) r =
    let (r', outs) = perform a r in let (last, more) = run acts r' in (last, outs ++ more)

-- The items of what left, and those that were sent.
abbrev pub items_of : List Out → List RelayItem
items_of [] = []
items_of (evicted item ∷ outs) = item ∷ items_of outs
items_of (batch items ∷ outs) = items ++ items_of outs

abbrev pub sent : List Act → List RelayItem
sent [] = []
sent (sends item ∷ acts) = item ∷ sent acts
sent (wakes w ∷ acts) = sent acts
sent (takes ∷ acts) = sent acts

items_of-append : (os ps : List Out) → items_of (os ++ ps) ≡ items_of os ++ items_of ps
items_of-append [] ps = refl
items_of-append (evicted item ∷ os) ps = ap (λ xs. item ∷ xs) (items_of-append os ps)
items_of-append (batch items ∷ os) ps =
    ap (λ xs. items ++ xs) (items_of-append os ps)
    ∙ sym (append_assoc items (items_of os) (items_of ps))

-- An action moves the items on, in order.
perform_exact :
    (a : Act) (r : Relay)
    → items_of (perform a r).1 ++ (perform a r).0.buffer ≡ r.buffer ++ sent (a ∷ [])
unfolding send wake_up take_batch
perform_exact (sends item) r = go (leb r.capacity (length r.buffer)) r.buffer
  where
    go :
        (x : Bool) (buffer : List RelayItem)
        → items_of (if x then oldest buffer else [])
            ++ ((if x then pop_oldest buffer else buffer) ++ (item ∷ []))
          ≡ buffer ++ (item ∷ [])
    go false buffer = refl
    go true [] = refl
    go true (b ∷ bs) = refl
perform_exact (wakes Wake.timer) r = sym (append_nil r.buffer)
perform_exact (wakes Wake.notify) r = sym (append_nil r.buffer)
perform_exact takes r =
    let n = min (length r.buffer) r.batch_size in
    ap (λ xs. xs ++ drop n r.buffer) (append_nil (take n r.buffer))
    ∙ take-append-drop n r.buffer
    ∙ sym (append_nil r.buffer)

perform_bound :
    (a : Act) (r : Relay)
    → length r.buffer ≤ max r.capacity 1
    → (length (perform a r).0.buffer ≤ max r.capacity 1) × ((perform a r).0.capacity ≡ r.capacity)
unfolding send wake_up take_batch
perform_bound (wakes Wake.timer) r h = (h, refl)
perform_bound (wakes Wake.notify) r h = (h, refl)
perform_bound takes r h =
    let l = length-drop (min (length r.buffer) r.batch_size) r.buffer in (omega arith, refl)
perform_bound (sends item) r h = (go (leb r.capacity (length r.buffer)) refl r.buffer refl, refl)
  where
    go :
        (x : Bool)
        → leb r.capacity (length r.buffer) ≡ x
        → (buffer : List RelayItem) → r.buffer ≡ buffer
        → length ((if x then pop_oldest buffer else buffer) ++ (item ∷ [])) ≤ max r.capacity 1
    go false e buffer q =
        let l = length-append buffer (item ∷ []) in
        let s = ap length q in
        let below : length r.buffer + 1 ≤ r.capacity = ground arith in omega arith
    go true e [] q = omega arith
    go true e (b ∷ bs) q =
        let l = length-append bs (item ∷ []) in let s = ap length q in omega arith

run_exact :
    (acts : List Act) (r : Relay)
    → items_of (run acts r).1 ++ (run acts r).0.buffer ≡ r.buffer ++ sent acts
run_exact [] r = sym (append_nil r.buffer)
run_exact (a ∷ acts) r =
    let (r', outs) = perform a r in
    let (last, more) = run acts r' in
    ap (λ xs. xs ++ last.buffer) (items_of-append outs more)
    ∙ append_assoc (items_of outs) (items_of more) last.buffer
    ∙ ap (λ xs. items_of outs ++ xs) (run_exact acts r')
    ∙ sym (append_assoc (items_of outs) r'.buffer (sent acts))
    ∙ ap (λ xs. xs ++ sent acts) (perform_exact a r)
    ∙ append_assoc r.buffer (sent (a ∷ [])) (sent acts)
    ∙ ap (λ xs. r.buffer ++ xs) (sent_cons a)
  where
    sent_cons : (a : Act) → sent (a ∷ []) ++ sent acts ≡ sent (a ∷ acts)
    sent_cons (sends item) = refl
    sent_cons (wakes w) = refl
    sent_cons takes = refl

run_bound :
    (acts : List Act) (r : Relay)
    → length r.buffer ≤ max r.capacity 1
    → length (run acts r).0.buffer ≤ max r.capacity 1
run_bound [] r h = h
run_bound (a ∷ acts) r h =
    let (bound, same) = perform_bound a r h in
    subst (λ c. length (run acts (perform a r).0).0.buffer ≤ max c 1) same
      (run_bound acts (perform a r).0
        (subst (λ c. length (perform a r).0.buffer ≤ max c 1) (sym same) bound))

-- Whatever the order in which senders and the loop take the lock, the items that were evicted and those
-- of the batches, in the order in which they left the buffer, and then the items in it, are the items
-- that were sent, in their order; and the buffer holds no more items than its capacity, or one.
pub run-items_of :
    (acts : List Act) (capacity batch_size : ℕ)
    → (items_of (run acts (spawn capacity batch_size)).1
          ++ (run acts (spawn capacity batch_size)).0.buffer
        ≡ sent acts)
      × (length (run acts (spawn capacity batch_size)).0.buffer ≤ max capacity 1)
run-items_of acts capacity batch_size = (
  run_exact acts (spawn capacity batch_size),
  run_bound acts (spawn capacity batch_size) (omega arith),
)
