-- ===== src/Archive/Queue/Pages.antt =====
-- The items that the requests to one endpoint get, and how far they come in its queue.
use push_anode.Prelude.{
  ℕ, zero, suc, ◌+◌, ◌*◌, ◌<◌, ◌≤◌, ◌≡◌, ◌≢◌, refl, sym, ◌∙◌, ap, List, [], ◌∷◌, ◌++◌, Option, some,
  Text, Result, ok, length, take, drop, length-append, arith,
}
use push_anode.Wire.{Failure, Libraries}
use push_anode.Validator.Contract.{Contract}
use push_anode.Archive.Database.{Database}
use push_anode.Archive.Blocks.{Node, QItem, accept}
use push_anode.Queries.Pages.Laws.{drop-drop}
use push_anode.Archive.Queue.{Endpoint, Reply, Stats, Poll, accept_items, take_items, poll_endpoint}

module _ {ℓ} {A : Type ℓ} where
  take-nil : (n : ℕ) → take {A = A} n [] ≡ []
  take-nil zero = refl
  take-nil (suc n) = refl

  take-take :
      (k n m : ℕ) (xs : List A)
      → k ≡ n + m
      → take k xs ≡ take n xs ++ take m (drop (length (take n xs)) xs)
  take-take k zero m xs e = ap (λ i. take i xs) (omega (arith, e))
  take-take k (suc n) m [] e = take-nil k ∙ sym (take-nil m)
  take-take zero (suc n) m (x ∷ xs) e = absurd (omega (arith, e))
  take-take (suc k) (suc n) m (x ∷ xs) e = ap (λ l. x ∷ l) (take-take k n m xs (omega (arith, e)))

  no_page : (k n : ℕ) (xs : List A) → 0 < k → take k xs ≡ [] → take n xs ≡ []
  no_page zero n xs pos e = absurd (omega (arith, pos))
  no_page (suc k) n [] pos e = take-nil n
  no_page (suc k) n (x ∷ xs) pos e = cc

module _ (lib : Libraries) (D : Database) (contract : Contract) (Offsets : Type 0)
    (read_items : ℕ → Text → ℕ → Option Reply)
    (update : Offsets → ℕ → ℕ → Result Failure Offsets) where
  -- Every request is answered with the next items of the queue of that node, `page` at most, and with
  -- the offset after them.
  abbrev pub IsServed : (Text → List QItem) → ℕ → Type 0
  IsServed queue page =
      (call : ℕ) (url : Text) (offset : ℕ)
      → (reply : Reply) × (read_items call url offset ≡ some reply)
        × (reply.items ≡ take page (drop offset (queue url)))
        × (reply.items ≢ [] → reply.last_offset ≡ offset + length reply.items)

  -- An update does not throw, and sets the offset of one row.
  abbrev pub IsUpdated : (Offsets → ℕ → ℕ) → Type 0
  IsUpdated offset_of =
      (o : Offsets) (id offset : ℕ)
      → (o' : Offsets) × (update o id offset ≡ ok o')
        × (offset_of o' id ≡ offset)
        × ((other : ℕ) → other ≢ id → offset_of o' other ≡ offset_of o other)

  abbrev pub accepted : List QItem → Node D → ℕ × Node D
  accepted = accept_items lib D contract Offsets read_items update

  pub accepted-append :
      (xs ys : List QItem) (node : Node D)
      → ((accepted (xs ++ ys) node).0 ≡ (accepted xs node).0 + (accepted ys (accepted xs node).1).0)
        × ((accepted (xs ++ ys) node).1 ≡ (accepted ys (accepted xs node).1).1)
  unfolding accept_items
  accepted-append [] ys node = (omega arith, refl)
  accepted-append (x ∷ xs) ys node =
      let (sums, same) = accepted-append xs ys (accept lib D contract x node).1 in
      (ground (arith, sums), same)

  abbrev Polled : Type 0
  Polled = Poll D Offsets

  module _ (queue : Text → List QItem) (page : ℕ) (offset_of : Offsets → ℕ → ℕ) where
    -- What `left` requests get from the offset on.
    abbrev pub next_items : ℕ → Endpoint → ℕ → List QItem
    next_items left e offset = take (left * page) (drop offset (queue e.target_node_url))

    -- From `p` on, the items were accepted in their order, and counted, and the offset stands after
    -- them.
    abbrev pub Delivered :
        List QItem → Endpoint → ℕ → ℕ → Stats → Polled → Result Failure Stats × Polled → Type 0
    Delivered items e left offset stats p (res, p') =
        (s : Stats) × (res ≡ ok s)
        × (p'.node ≡ (accepted items p.node).1)
        × (s.downloaded_items ≡ stats.downloaded_items + length items)
        × (s.new_items ≡ stats.new_items + (accepted items p.node).0)
        × (p'.calls ≤ p.calls + left)
        × (offset_of p'.offsets e.id ≡ offset + length items)
        × ((other : ℕ) → other ≢ e.id → offset_of p'.offsets other ≡ offset_of p.offsets other)

    abbrev pub polled : ℕ → Endpoint → ℕ → Stats → Polled → Result Failure Stats × Polled
    polled = poll_endpoint lib D contract Offsets read_items update

    next_items-suc :
        (left : ℕ) (e : Endpoint) (offset : ℕ) (items : List QItem)
        → items ≡ take page (drop offset (queue e.target_node_url))
        → next_items (suc left) e offset ≡ items ++ next_items left e (offset + length items)
    next_items-suc left e offset items is =
        let more = drop offset (queue e.target_node_url) in
        take-take (suc left * page) page (left * page) more (omega arith)
        ∙ (ap (λ l. l ++ take (left * page) (drop (length l) more)) (sym is)
            ∙ ap (λ l. items ++ take (left * page) l)
                (drop-drop (offset + length items) offset (length items) (queue e.target_node_url)
                  refl))

    page-Delivered :
        (left : ℕ) (e : Endpoint) (offset : ℕ) (x : QItem) (xs : List QItem) (o : Offsets)
        (stats : Stats) (p : Polled) (r : Result Failure Stats × Polled)
        → offset_of o e.id ≡ offset + length (x ∷ xs)
        → ((other : ℕ) → other ≢ e.id → offset_of o other ≡ offset_of p.offsets other)
        → Delivered
            (next_items left e (offset + length (x ∷ xs)))
            e
            left
            (offset + length (x ∷ xs))
            (record stats {
              queries = suc stats.queries;
              downloaded_items = stats.downloaded_items + length (x ∷ xs);
              new_items = stats.new_items + (accepted (x ∷ xs) p.node).0;
              last_offset = offset + length (x ∷ xs);
            })
            (record p { node = (accepted (x ∷ xs) p.node).1; offsets = o; calls = suc p.calls })
            r
        → Delivered
            ((x ∷ xs) ++ next_items left e (offset + length (x ∷ xs)))
            e
            (suc left)
            offset
            stats
            p
            r
    page-Delivered left e offset x xs o stats p (res, p') here others
          (s, is_ok, node, downloaded, new, calls, stands, same) =
        let ys = next_items left e (offset + length (x ∷ xs)) in
        let (sums, nodes) = accepted-append (x ∷ xs) ys p.node in
        let size = length-append (x ∷ xs) ys in
        (
          s,
          is_ok,
          node ∙ sym nodes,
          omega (arith, downloaded, size),
          omega (arith, new, sums),
          omega (arith, calls),
          omega (arith, stands, size),
          λ other differs. same other differs ∙ others other differs,
        )

    module _ (pos : 0 < page) (served : IsServed queue page) (updated : IsUpdated offset_of) where
      items-Delivered :
          (left : ℕ) (e : Endpoint) (offset last_offset : ℕ) (items : List QItem) (stats : Stats)
          (p : Polled)
          → items ≡ take page (drop offset (queue e.target_node_url))
          → (items ≢ [] → last_offset ≡ offset + length items)
          → offset_of p.offsets e.id ≡ offset
          → ((offset : ℕ) (stats : Stats) (p : Polled)
              → offset_of p.offsets e.id ≡ offset
              → Delivered
                  (next_items left e offset)
                  e
                  left
                  offset
                  stats
                  p
                  (polled left e offset stats p))
          → Delivered (next_items (suc left) e offset) e (suc left) offset stats p (
              take_items lib D contract Offsets read_items update e last_offset items
                (record stats { queries = suc stats.queries })
                (record p { calls = suc p.calls })
                (polled left e))
      unfolding take_items accept_items
      items-Delivered left e offset last_offset [] stats p is last stands later =
          let none_left =
            no_page page (suc left * page) (drop offset (queue e.target_node_url)) pos (sym is) in
          rw none_left (
            record stats { queries = suc stats.queries },
            refl,
            refl,
            omega arith,
            omega arith,
            omega arith,
            omega (arith, stands),
            λ other differs. refl,
          )
      items-Delivered left e offset last_offset (x ∷ xs) stats p is last stands later =
          let at_end = last (λ none_there. cc) in
          let (o, saved, here, others) = updated p.offsets e.id (offset + length (x ∷ xs)) in
          rw (at_end, saved, next_items-suc left e offset (x ∷ xs) is)
            (page-Delivered left e offset x xs o stats p _ here others
              (later (offset + length (x ∷ xs)) _ _ here))

      pub endpoint-Delivered :
          (left : ℕ) (e : Endpoint) (offset : ℕ) (stats : Stats) (p : Polled)
          → offset_of p.offsets e.id ≡ offset
          → Delivered
              (next_items left e offset)
              e
              left
              offset
              stats
              p
              (polled left e offset stats p)
      unfolding poll_endpoint accept_items
      endpoint-Delivered zero e offset stats p stands =
          let zero_items : 0 * page ≡ 0 = omega arith in
          let none_yet : next_items 0 e offset ≡ [] =
            ap (λ n. take n (drop offset (queue e.target_node_url))) zero_items in
          rw none_yet (
            stats,
            refl,
            refl,
            omega arith,
            omega arith,
            omega arith,
            omega (arith, stands),
            λ other differs. refl,
          )
      endpoint-Delivered (suc left) e offset stats p stands =
          let (reply, read, is, last) = served p.calls e.target_node_url offset in
          rw read (
            items-Delivered left e offset reply.last_offset reply.items stats p is last stands
              (endpoint-Delivered left e))
