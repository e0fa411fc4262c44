-- ===== src/Relay/Groups.antt =====
-- services/agent-runner/src/event_relay/dispatch.rs: what is posted for each session of a batch.
use rustacean.Common.{
  append_nil, append_assoc, ℕ, suc, ◌≤◌, String, ◌≡◌, refl, sym, ap, ◌∙◌, inl, inr, Bool, true,
  false, Option, none, some, List, [], ◌∷◌, ◌++◌, map, length, length-map, arith, Bool-cases,
  if_cases, if◌then◌else◌,
}
use rustacean.Relay.{
  RelayItem, push_item, group_items, by_session, Body, Post, push_values, post_of, flush_session,
}
use rustacean.Relay.Events.{RuntimeEvent}
use text.Mathlib.Text.{◌==◌}
use text.Mathlib.TextEquality.{eq_iff}

-- The items of a session, in their order.
abbrev pub of_session : String → List RelayItem → List RelayItem
of_session id [] = []
of_session id (item ∷ items) =
    if item.session_id == id then item ∷ of_session id items else of_session id items

-- The group of a session, and the number of the groups that it has.
abbrev pub items_for : String → List (String × List RelayItem) → List RelayItem
items_for id [] = []
items_for id ((other, items) ∷ groups) = if other == id then items else items_for id groups

abbrev pub groups_for : String → List (String × List RelayItem) → ℕ
groups_for id [] = 0
groups_for id ((other, items) ∷ groups) =
    if other == id then suc (groups_for id groups) else groups_for id groups

push_item-items_for :
    (id : String) (item : RelayItem) (groups : List (String × List RelayItem))
    → items_for id (push_item item groups) ≡ items_for id groups ++ of_session id (item ∷ [])
push_item-items_for id item [] = refl
push_item-items_for id item ((other, items) ∷ groups) =
    go (item.session_id == other) refl (other == id) refl (push_item-items_for id item groups)
  where
    go :
        (x : Bool)
        → (item.session_id == other) ≡ x
        → (y : Bool) → (other == id) ≡ y
        → items_for id (push_item item groups) ≡ items_for id groups ++ of_session id (item ∷ [])
        → items_for id (
            if x
            then (other, items ++ (item ∷ [])) ∷ groups
            else (other, items) ∷ push_item item groups)
          ≡ (if y then items else items_for id groups) ++ of_session id (item ∷ [])
    go true e true f rest =
        let z = ap (λ s. s == id) ((eq_iff item.session_id other).0 e) ∙ f in rw (f, z) refl
    go true e false f rest =
        let z = ap (λ s. s == id) ((eq_iff item.session_id other).0 e) ∙ f in
        rw (f, z) (sym (append_nil (items_for id groups)))
    go false e true f rest =
        let z = ap (λ s. item.session_id == s) (sym ((eq_iff other id).0 f)) ∙ e in
        rw (f, z) (sym (append_nil items))
    go false e false f rest = rw f rest

group_items-items_for :
    (id : String) (batch : List RelayItem) (groups : List (String × List RelayItem))
    → items_for id (group_items batch groups) ≡ items_for id groups ++ of_session id batch
unfolding group_items
group_items-items_for id [] groups = sym (append_nil (items_for id groups))
group_items-items_for id (item ∷ batch) groups =
    group_items-items_for id batch (push_item item groups)
    ∙ ap (λ xs. xs ++ of_session id batch) (push_item-items_for id item groups)
    ∙ joined (items_for id groups) (item.session_id == id) refl
  where
    assoc :
        (xs : List RelayItem)
        → (xs ++ (item ∷ [])) ++ of_session id batch ≡ xs ++ (item ∷ of_session id batch)
    assoc [] = refl
    assoc (x ∷ xs) = ap (λ ys. x ∷ ys) (assoc xs)

    nothing : (xs : List RelayItem) → (xs ++ []) ++ of_session id batch ≡ xs ++ of_session id batch
    nothing [] = refl
    nothing (x ∷ xs) = ap (λ ys. x ∷ ys) (nothing xs)

    joined :
        (xs : List RelayItem) (x : Bool)
        → (item.session_id == id) ≡ x
        → (xs ++ of_session id (item ∷ [])) ++ of_session id batch
          ≡ xs ++ of_session id (item ∷ batch)
    joined xs true e = rw e (assoc xs)
    joined xs false e = rw e (nothing xs)

-- At most one group per session: a new one is only made for a session that has none.
push_item-groups_for :
    (id : String) (item : RelayItem) (groups : List (String × List RelayItem))
    → groups_for id groups ≤ 1
    → groups_for id (push_item item groups) ≤ 1
push_item-groups_for id item [] h =
    if_cases (λ n. n ≤ 1) (item.session_id == id) 1 0 (λ _. omega arith) (λ _. omega arith)
push_item-groups_for id item ((other, items) ∷ groups) h =
    go (item.session_id == other) refl (other == id) refl h (push_item-groups_for id item groups)
  where
    absent :
        (item.session_id == id) ≡ false
        → (gs : List (String × List RelayItem))
        → groups_for id (push_item item gs) ≡ groups_for id gs
    absent e [] = rw e refl
    absent e ((o, is) ∷ gs) = elim (Bool-cases (item.session_id == o)) [
      | inl f ↦ rw f refl
      | inr f ↦ rw f (elim (Bool-cases (o == id)) [
        | inl g ↦ rw g (ap suc (absent e gs))
        | inr g ↦ rw g (absent e gs)
      ])
    ]

    go :
        (x : Bool)
        → (item.session_id == other) ≡ x
        → (y : Bool) → (other == id) ≡ y
        → (if y then suc (groups_for id groups) else groups_for id groups) ≤ 1
        → (groups_for id groups ≤ 1 → groups_for id (push_item item groups) ≤ 1)
        → groups_for id (
            if x
            then (other, items ++ (item ∷ [])) ∷ groups
            else (other, items) ∷ push_item item groups)
          ≤ 1
    go true e true f h rest = rw f h
    go true e false f h rest = rw f h
    go false e false f h rest = rw f (rest h)
    go false e true f h rest =
        let z = ap (λ s. item.session_id == s) (sym ((eq_iff other id).0 f)) ∙ e in
        let n = absent z groups in rw f (omega arith)

group_items-groups_for :
    (id : String) (batch : List RelayItem) (groups : List (String × List RelayItem))
    → groups_for id groups ≤ 1
    → groups_for id (group_items batch groups) ≤ 1
unfolding group_items
group_items-groups_for id [] groups h = h
group_items-groups_for id (item ∷ batch) groups h =
    group_items-groups_for id batch (push_item item groups) (push_item-groups_for id item groups h)

-- The post with the events of some items.
abbrev pub whole_post : (RuntimeEvent → String) → String → List RelayItem → Option Post
whole_post value id [] = none
whole_post value id (item ∷ items) = some (record {
  session_id = id;
  body = record {
    tenant_id = item.tenant_id;
    events = map (λ (i : RelayItem). value i.event) (item ∷ items);
    turn_ids = map (λ (i : RelayItem). i.turn_id) (item ∷ items);
  };
  event_count = length (item ∷ items);
})

push_values-map :
    (value : RuntimeEvent → String) (items : List RelayItem) (b : Body)
    → push_values (λ e. some (value e)) items b ≡ record b {
      events = b.events ++ map (λ (i : RelayItem). value i.event) items;
      turn_ids = b.turn_ids ++ map (λ (i : RelayItem). i.turn_id) items;
    }
unfolding push_values
push_values-map value [] b = sym (ap2 (append_nil b.events) (append_nil b.turn_ids))
  where
    ap2 :
        {xs ys : List String} {us vs : List (Option String)}
        → xs ≡ ys
        → us ≡ vs
        → record b { events = xs; turn_ids = us } ≡ record b { events = ys; turn_ids = vs }
    ap2 p q = cc
push_values-map value (item ∷ items) b =
    push_values-map value items (record b {
      events = b.events ++ (value item.event ∷ []);
      turn_ids = b.turn_ids ++ (item.turn_id ∷ []);
    })
    ∙ ap2 (append_assoc b.events (value item.event ∷ []) _)
        (append_assoc b.turn_ids (item.turn_id ∷ []) _)
  where
    ap2 :
        {xs ys : List String} {us vs : List (Option String)}
        → xs ≡ ys
        → us ≡ vs
        → record b { events = xs; turn_ids = us } ≡ record b { events = ys; turn_ids = vs }
    ap2 p q = cc

flush_session-whole_post :
    (value : RuntimeEvent → String) (id : String) (items : List RelayItem)
    → flush_session (λ e. some (value e)) id items ≡ whole_post value id items
unfolding flush_session
flush_session-whole_post value id [] = refl
flush_session-whole_post value id (item ∷ items) =
    ap (post_of id) (
      push_values-map value (item ∷ items)
        (record { tenant_id = item.tenant_id; events = []; turn_ids = [] }))
    ∙ ap
        (λ n. some (record {
          session_id = id;
          body = record {
            tenant_id = item.tenant_id;
            events = map (λ (i : RelayItem). value i.event) (item ∷ items);
            turn_ids = map (λ (i : RelayItem). i.turn_id) (item ∷ items);
          };
          event_count = suc n;
        }))
        (length-map items (λ (i : RelayItem). value i.event))

-- If serde_json can write each event, then what is posted of a batch for a session are the events of its
-- items and, side by side with them, their turn ids, in the order of the batch, and in one request: the
-- session has at most one group. A session without an item has no post.
pub flush_session-by_session :
    (value : RuntimeEvent → String) (id : String) (batch : List RelayItem)
    → (flush_session (λ e. some (value e)) id (items_for id (by_session batch))
        ≡ whole_post value id (of_session id batch))
      × (groups_for id (by_session batch) ≤ 1)
flush_session-by_session value id batch = (
  flush_session-whole_post value id (items_for id (by_session batch))
      ∙ ap (whole_post value id) (group_items-items_for id batch []),
  group_items-groups_for id batch [] (omega arith),
)
