-- ===== src/CommandQueue/Lost.antt =====
-- The whole of `coalesce_set_max`: what it does when nothing interferes, and what is lost when
-- other threads fill the queue while its commands are drained.
use sanlight_mesh_mqtt_gatew.Base.{
  ℕ, suc, ◌+◌, ◌≤◌, ◌<◌, ◌≡◌, ◌≢◌, append_assoc, subst, refl, sym, ap, ◌∙◌, Bool, true, false, not,
  ◌||◌, List, [], ◌∷◌, ◌++◌, length, filter, arith, ◌==◌, All, some, none, append-nil,
  length-append,
}
use sanlight_mesh_mqtt_gatew.GatewayProtocol.{Action, GatewayCommand, set_max}
use sanlight_mesh_mqtt_gatew.CommandQueue.{
  CommandQueue, Selection, contains_id, select, put, returned, is_full, put_back, append_item,
  coalesce_set_max, is_set_max, settle, replaces,
}
use sanlight_mesh_mqtt_gatew.CommandQueue.Select.{others, IsCoalesced, select-IsCoalesced}

put_back-full :
    (q : CommandQueue) (c : GatewayCommand) (cs : List GatewayCommand)
    → is_full q ≡ true
    → put_back q (c ∷ cs) ≡ (q, false)
unfolding put_back
put_back-full q c cs f = rw f

raises :
    (q : CommandQueue) (cs : List GatewayCommand)
    → cs ≢ []
    → is_full q ≡ true
    → put_back q cs ≡ (q, false)
raises q [] l f = absurd (l refl)
raises q (c ∷ cs) l f = put_back-full q c cs f

has_room : (q : CommandQueue) (n : ℕ) → length q.items + suc n ≤ q.max_size → is_full q ≡ false
unfolding is_full
has_room q n h = ground arith

put_back-room :
    (q : CommandQueue) (cs : List GatewayCommand)
    → length q.items + length cs ≤ q.max_size
    → put_back q cs ≡ (record q { items = q.items ++ cs }, true)
unfolding put_back
put_back-room q [] h = ap (λ l. (record q { items = l }, true)) (sym (append-nil q.items))
put_back-room q (c ∷ cs) h = rw (has_room q (length cs) h) (
    put_back-room (append_item q c) cs (omega (arith, h, length-append q.items (c ∷ [])))
    ∙ ap (λ l. (record q { items = l }, true)) (append_assoc q.items (c ∷ []) cs))

length-filter :
    (p : GatewayCommand → Bool) (cs : List GatewayCommand) → length (filter p cs) ≤ length cs
unfolding filter
length-filter p [] = omega arith
length-filter p (c ∷ cs) = ground (arith, length-filter p cs)

coalesces :
    (a : Action) (wait : ℕ) → a ≡ set_max → 0 < wait → (not (is_set_max a) || wait == 0) ≡ false
coalesces a wait e h = rw e (ground arith)

-- With no other thread in between, a set-max that waits is resolved by the whole queue: of it and
-- the queued set-max commands for its target, the newest is selected and each earlier one
-- superseded by the next; all other commands stay in the queue in their order.
pub coalesce_set_max-alone :
    (q : CommandQueue) (first : GatewayCommand) (wait : ℕ)
    → first.action ≡ set_max
    → 0 < wait
    → length q.items ≤ q.max_size
    → (s : Selection) × IsCoalesced first.target first q.items s
      × (coalesce_set_max q first wait (λ m. m)
          ≡ (settle (record q { items = s.restore }) s, some (s.selected, s.superseded)))
unfolding coalesce_set_max
coalesce_set_max-alone q first wait a w b =
    let s = select first.target first q.items in
    let r = select-IsCoalesced first.target first q.items in
    let l =
      subst (λ l. length l ≤ length q.items) (sym r.kept)
        (length-filter (λ c. not (replaces first.target c)) q.items) in
    (
      s,
      r,
      rw (coalesces first.action wait a w)
          (rw (put_back-room (record q { items = [] }) s.restore (omega (arith, l, b)))),
    )

put_each_ignored :
    (m : CommandQueue) (cs : List GatewayCommand)
    → All (λ c. contains_id m.pending_ids c.command_id ≡ true) cs
    → All (λ c. put m c ≡ (m, returned false)) cs
unfolding put
put_each_ignored m [] p = tt
put_each_ignored m (c ∷ cs) p = (rw p.0, put_each_ignored m cs p.1)

-- If other threads fill the queue after a waiting set-max has drained it, and it holds commands to
-- put back, then `queue.Full` is raised: none of those commands is in the queue any more. As their
-- identifiers are still pending, a redelivery of each of them is ignored as a duplicate.
pub coalesce_set_max-loses :
    (q m : CommandQueue) (first : GatewayCommand) (wait : ℕ)
    (meanwhile : CommandQueue → CommandQueue)
    → first.action ≡ set_max
    → 0 < wait
    → others first.target q.items ≢ []
    → meanwhile (record q { items = [] }) ≡ m
    → is_full m ≡ true
    → All (λ c. contains_id m.pending_ids c.command_id ≡ true) (others first.target q.items)
    → (coalesce_set_max q first wait meanwhile ≡ (m, none))
      × All (λ c. put m c ≡ (m, returned false)) (others first.target q.items)
unfolding coalesce_set_max
coalesce_set_max-loses q m first wait meanwhile a w l e f p =
    let s = select first.target first q.items in
    let k = (select-IsCoalesced first.target first q.items).kept in
    let raised : put_back m s.restore ≡ (m, false) =
      rw k (raises m (others first.target q.items) l f) in
    (
      rw (coalesces first.action wait a w) (rw e (rw raised)),
      put_each_ignored m (others first.target q.items) p,
    )
