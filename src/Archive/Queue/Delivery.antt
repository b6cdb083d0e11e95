-- ===== src/Archive/Queue/Delivery.antt =====
-- The items that polling gets from the queue of a node, and how far it comes.
use push_anode.Prelude.{
  ℕ, ◌+◌, ◌*◌, ◌<◌, ◌≤◌, ◌≡◌, ◌≢◌, refl, sym, ◌∙◌, ap, ap₂, ok_injective, List, [], ◌∷◌, ◌++◌, map,
  Option, Text, Result, ok, err, All, length, arith,
}
use push_anode.Wire.{Failure, Libraries}
use push_anode.Validator.Contract.{Contract}
use push_anode.Archive.Database.{Database}
use push_anode.Archive.Blocks.{QItem}
use push_anode.Archive.Queue.{
  Endpoint, Reply, Stats, Poll, accept_items, and_next, fresh_stats, poll_remote_queue,
}
use push_anode.Archive.Queue.Pages.{
  IsServed, IsUpdated, accepted, accepted-append, next_items, Delivered, polled, endpoint-Delivered,
}

module _ (lib : Libraries) (D : Database) (contract : Contract) (Offsets : Type 0)
    (read_items : ℕ → Text → ℕ → Option Reply)
    (update : Offsets → ℕ → ℕ → Result Failure Offsets) where
  abbrev Polled : Type 0
  Polled = Poll D Offsets

  module _ (queue : Text → List QItem) (page : ℕ) (offset_of : Offsets → ℕ → ℕ) where
    abbrev here_items : ℕ → Endpoint → ℕ → List QItem
    here_items = next_items lib D contract Offsets read_items update queue page offset_of

    -- The endpoints are different rows.
    abbrev pub HasDistinct : List Endpoint → Type 0
    HasDistinct [] = Unit
    HasDistinct (e ∷ es) = All (λ f. f.id ≢ e.id) es × HasDistinct es

    abbrev all_items : ℕ → List Endpoint → List QItem
    all_items max_requests [] = []
    all_items max_requests (e ∷ es) =
        here_items max_requests e e.target_offset ++ all_items max_requests es

    -- For each endpoint in turn, what that many requests get was accepted in its order and counted,
    -- and the offset of the endpoint stands after it; no other offset is changed.
    abbrev pub AllDelivered :
        ℕ → List Endpoint → Polled → Result Failure (List Stats) × Polled → Type 0
    AllDelivered max_requests es p (res, p') =
        (all_stats : List Stats) × (res ≡ ok all_stats)
        × (p'.node
            ≡ (accepted lib D contract Offsets read_items update (all_items max_requests es)
                p.node).1)
        × (map (λ (s : Stats). s.downloaded_items) all_stats
            ≡ map (λ e. length (here_items max_requests e e.target_offset)) es)
        × (p'.calls ≤ p.calls + length es * max_requests)
        × All
            (λ e.
              offset_of p'.offsets e.id
              ≡ e.target_offset + length (here_items max_requests e e.target_offset))
            es
        × ((other : ℕ)
            → All (λ e. other ≢ e.id) es
            → offset_of p'.offsets other ≡ offset_of p.offsets other)

    still_stand :
        (o o' : Offsets) (e : Endpoint) (es : List Endpoint)
        → ((other : ℕ) → other ≢ e.id → offset_of o' other ≡ offset_of o other)
        → All (λ f. f.id ≢ e.id) es
        → All (λ f. offset_of o f.id ≡ f.target_offset) es
        → All (λ f. offset_of o' f.id ≡ f.target_offset) es
    still_stand o o' e [] same distinct stand = tt
    still_stand o o' e (f ∷ es) same (d, distinct) (s, stand) =
        (same f.id d ∙ s, still_stand o o' e es same distinct stand)

    apart :
        (e : Endpoint) (es : List Endpoint) → All (λ f. f.id ≢ e.id) es → All (λ f. e.id ≢ f.id) es
    apart e [] h = tt
    apart e (f ∷ es) (d, h) = (λ same. d (sym same), apart e es h)

    abbrev and_rest : Stats → Polled → ℕ → List Endpoint → Result Failure (List Stats) × Polled
    and_rest stats p1 max_requests es =
        and_next lib D contract Offsets read_items update
          (poll_remote_queue lib D contract Offsets read_items update max_requests es p1)
          (λ all_stats p2. (ok (stats ∷ all_stats), p2))

    rest-Delivered :
        (max_requests : ℕ) (e : Endpoint) (es : List Endpoint) (stats s : Stats) (p p1 : Polled)
        (r : Result Failure (List Stats) × Polled)
        → stats.downloaded_items ≡ 0
        → All (λ f. f.id ≢ e.id) es
        → Delivered lib D contract Offsets read_items update queue page offset_of
            (here_items max_requests e e.target_offset)
            e
            max_requests
            e.target_offset
            stats
            p
            (ok s, p1)
        → AllDelivered max_requests es p1 r
        → AllDelivered max_requests (e ∷ es) p (
            and_next lib D contract Offsets read_items update r
              (λ all_stats p2. (ok (s ∷ all_stats), p2)))
    rest-Delivered max_requests e es stats s p p1 (err x, p2) none_before distinct here
          (all_stats, all_ok, all_node, all_downloaded, all_calls, all_stand, all_same) =
        absurd (cc all_ok)
    rest-Delivered max_requests e es stats s p p1 (ok list, p2) none_before distinct
          (s', is_ok, node, downloaded, new, calls, stands, same)
          (all_stats, all_ok, all_node, all_downloaded, all_calls, all_stand, all_same) =
        let same_stats : s ≡ s' = ok_injective is_ok in
        let (sums, nodes) =
          accepted-append lib D contract Offsets read_items update
            (here_items max_requests e e.target_offset) (all_items max_requests es) p.node in
        let here : s.downloaded_items ≡ length (here_items max_requests e e.target_offset) =
          rw same_stats (omega (arith, downloaded, none_before)) in
        (
          s ∷ all_stats,
          ap (λ l. ok (s ∷ l)) (ok_injective all_ok),
          all_node
              ∙ (ap
                    (λ n.
                      (accepted lib D contract Offsets read_items update (all_items max_requests es)
                        n).1)
                    node
                  ∙ sym nodes),
          ap₂ (λ a b. a ∷ b) here all_downloaded,
          omega (arith, calls, all_calls),
          (all_same e.id (apart e es distinct) ∙ stands, all_stand),
          λ other (differs, differ). all_same other differ ∙ same other differs,
        )

    first-Delivered :
        (max_requests : ℕ) (e : Endpoint) (es : List Endpoint) (stats : Stats) (p : Polled)
        (r : Result Failure Stats × Polled)
        → stats.downloaded_items ≡ 0
        → All (λ f. f.id ≢ e.id) es
        → All (λ f. offset_of p.offsets f.id ≡ f.target_offset) es
        → Delivered lib D contract Offsets read_items update queue page offset_of
            (here_items max_requests e e.target_offset)
            e
            max_requests
            e.target_offset
            stats
            p
            r
        → ((p1 : Polled)
            → All (λ f. offset_of p1.offsets f.id ≡ f.target_offset) es
            → AllDelivered max_requests es p1
                (poll_remote_queue lib D contract Offsets read_items update max_requests es p1))
        → AllDelivered max_requests (e ∷ es) p (
            and_next lib D contract Offsets read_items update r
              (λ s p1. and_rest s p1 max_requests es))
    first-Delivered max_requests e es stats p (err x, p1) none_before distinct stand
          (s, is_ok, node, downloaded, new, calls, stands, same) later =
        absurd (cc is_ok)
    first-Delivered max_requests e es stats p (ok s, p1) none_before distinct stand here later =
        let (s', is_ok, node, downloaded, new, calls, stands, same) = here in
        rest-Delivered max_requests e es stats s p p1 _ none_before distinct here
          (later p1 (still_stand p.offsets p1.offsets e es same distinct stand))

    module _ (pos : 0 < page)
        (served : IsServed lib D contract Offsets read_items update queue page)
        (updated : IsUpdated lib D contract Offsets read_items update offset_of) where
      -- If every request is answered with the next items of the queue of that node, a page at most,
      -- where a page has at least one item, and with the offset after them, if updates of the table of
      -- offsets do not throw and set one row, and if the endpoints are different rows that hold their
      -- offsets, then polling with `max_requests` requests each ends without an exception; it has given
      -- to accept, for each endpoint in turn and in the order of its queue, exactly the items that so
      -- many pages have from the offset on, each of them once; it reports their number; it has made at
      -- most so many requests for each endpoint on the whole; and the offset of each endpoint stands
      -- after these items, while no other changes.
      pub poll_remote_queue-AllDelivered :
          (max_requests : ℕ) (es : List Endpoint) (p : Polled)
          → HasDistinct es
          → All (λ e. offset_of p.offsets e.id ≡ e.target_offset) es
          → AllDelivered max_requests es p
              (poll_remote_queue lib D contract Offsets read_items update max_requests es p)
      unfolding poll_remote_queue accept_items
      poll_remote_queue-AllDelivered max_requests [] p distinct stand =
          ([], refl, refl, refl, omega arith, tt, λ other differs. refl)
      poll_remote_queue-AllDelivered max_requests (e ∷ es) p (d, distinct) (stands, stand) =
          let stats = fresh_stats lib D contract Offsets read_items update e in
          first-Delivered max_requests e es stats p
            (polled lib D contract Offsets read_items update queue page offset_of max_requests e
              e.target_offset stats p)
            refl d stand
            (endpoint-Delivered lib D contract Offsets read_items update queue page offset_of pos
              served updated max_requests e e.target_offset stats p stands)
            (λ p1. poll_remote_queue-AllDelivered max_requests es p1 distinct)
