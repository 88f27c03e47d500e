-- ===== src/Server/DistributedServer/Changes.antt =====
-- What the registry of packages/server/src/nodeRegistry.ts and the streams of
-- packages/server/src/distributedServer.ts have in common, through the changes of either.
use express_token_revoker.Prelude.{
  some-inj, ℕ, ◌+◌, ◌≡◌, refl, sym, ◌∙◌, ap, true, false, none, some, List, [], ◌∷◌, arith, ◌==◌,
  Bool-cases, inl, inr,
}
use express_token_revoker.Prelude.Text.{Text, text_eq, text_eq_iff}
use express_token_revoker.Server.Coordinator.{OutboundEvent}
use express_token_revoker.Server.NodeRegistry.{NodeEntry, get_node, delete_node, change_node}
use express_token_revoker.Server.NodeRegistry.Exclusive.{get-delete_node}
use express_token_revoker.Server.Delivery.{
  Connection, Task, enqueue_task, broadcast_event, write_event,
}
use express_token_revoker.Server.DistributedServer.{
  NodeStream, delete_stream, find_stream, put_stream, broadcast, broadcast_all,
}
use express_token_revoker.Server.DistributedServer.Streams.{
  Matches, Matches-weaken, found_entry, get-head,
}

-- The same node, and as open.
abbrev pub SameStream : Connection → Connection → Type 0
SameStream c d = (d.node_id ≡ c.node_id) × (d.is_closed ≡ c.is_closed)

pub enqueue_task-SameStream : (t : Task) (c : Connection) → SameStream c (enqueue_task t c)
unfolding enqueue_task
enqueue_task-SameStream t c = elim (Bool-cases c.is_closed) [
  | inl closed ↦ simp closed (refl, refl)
  | inr open_ ↦ simp open_ (refl, refl)
]

pub broadcast-Matches :
    (event : OutboundEvent) (lo hi : ℕ) (es : List (NodeEntry ℕ)) (xs : List NodeStream)
    → Matches lo hi es xs
    → Matches lo hi es (broadcast event xs)
unfolding broadcast
broadcast-Matches event lo hi [] [] m = m
broadcast-Matches event lo hi [] (x ∷ xs) m = m
broadcast-Matches event lo hi (e ∷ es) [] m = m
broadcast-Matches event lo hi (e ∷ es) (x ∷ xs) (above, c, i, l, o, f, m) =
    let (id, closed) = enqueue_task-SameStream (write_event (broadcast_event event)) x.connection in
    (above, c, i ∙ sym id, l, closed ∙ o, f, broadcast-Matches event (x.handle + 1) hi es xs m)

pub broadcast_all-Matches :
    (events : List OutboundEvent) (lo hi : ℕ) (es : List (NodeEntry ℕ)) (xs : List NodeStream)
    → Matches lo hi es xs
    → Matches lo hi es (broadcast_all events xs)
unfolding broadcast_all
broadcast_all-Matches [] lo hi es xs m = m
broadcast_all-Matches (event ∷ events) lo hi es xs m =
    broadcast-Matches event lo hi es (broadcast_all events xs)
      (broadcast_all-Matches events lo hi es xs m)

-- A stream that changes and stays open.
pub put_stream-Matches :
    (h : ℕ) (c d : Connection) (lo hi : ℕ) (es : List (NodeEntry ℕ)) (xs : List NodeStream)
    → SameStream c d
    → find_stream h xs ≡ some c
    → Matches lo hi es xs
    → Matches lo hi es (put_stream h d xs)
unfolding find_stream put_stream
put_stream-Matches h c d lo hi [] [] same found m = m
put_stream-Matches h c d lo hi [] (x ∷ xs) same found m = absurd (ground (arith, m))
put_stream-Matches h c d lo hi (e ∷ es) [] same found m = m
put_stream-Matches h c d lo hi (e ∷ es) (x ∷ xs) (id, closed) found (above, c', i, l, o, f, m) =
    elim (Bool-cases (x.handle == h)) [
      | inl here ↦
          let equal : x.connection ≡ c = some-inj (simp here at found) in
          simp here (
            above,
            c',
            i ∙ ap (λ y. y.node_id) equal ∙ sym id,
            l,
            closed ∙ sym (ap (λ y. y.is_closed) equal) ∙ o,
            f,
            m,
          )
      | inr there ↦ simp there (
        above,
        c',
        i,
        l,
        o,
        f,
        put_stream-Matches h c d (x.handle + 1) hi es xs (id, closed) (simp there at found) m,
      )
    ]

pub delete-put_stream :
    (h : ℕ) (d : Connection) (xs : List NodeStream)
    → delete_stream h (put_stream h d xs) ≡ delete_stream h xs
unfolding delete_stream put_stream
delete-put_stream h d [] = refl
delete-put_stream h d (x ∷ xs) = ground (arith, delete-put_stream h d xs)

-- A stream that ends, with its entry.
pub delete-Matches :
    (h : ℕ) (c : Connection) (lo hi : ℕ) (es : List (NodeEntry ℕ)) (xs : List NodeStream)
    → find_stream h xs ≡ some c
    → Matches lo hi es xs
    → Matches lo hi (delete_node c.node_id es) (delete_stream h xs)
unfolding find_stream delete_stream delete_node get_node
delete-Matches h c lo hi [] [] found m = m
delete-Matches h c lo hi [] (x ∷ xs) found m = absurd (ground (arith, m))
delete-Matches h c lo hi (e ∷ es) [] found m = absurd (ground (arith, m))
delete-Matches h c lo hi (e ∷ es) (x ∷ xs) found (above, c', i, l, o, f, m) =
    elim (Bool-cases (x.handle == h)) [
      | inl here ↦
          let equal : x.connection ≡ c = some-inj (simp here at found) in
          let same : text_eq e.node_id c.node_id ≡ true =
            (text_eq_iff e.node_id c.node_id).1 (i ∙ ap (λ y. y.node_id) equal) in
          simp (here, same) (Matches-weaken (x.handle + 1) lo hi es xs (omega (arith, above)) m)
      | inr there ↦
          let later = simp there at found in
          let other : text_eq e.node_id c.node_id ≡ false =
            elim (Bool-cases (text_eq e.node_id c.node_id)) [
              | inl same ↦
                  let equal : e.node_id ≡ c.node_id = (text_eq_iff e.node_id c.node_id).0 same in
                  absurd (
                    found_entry (x.handle + 1) hi h c es xs m later
                      (ap (λ id. get_node id es) (sym equal) ∙ f))
              | inr differs ↦ differs
            ] in
          let back : text_eq c.node_id e.node_id ≡ false =
            ground
              (arith, other, text_eq_iff e.node_id c.node_id, text_eq_iff c.node_id e.node_id) in
          simp (there, other)
            (
              above,
              c',
              i,
              l,
              o,
              get-delete_node e.node_id c.node_id es back ∙ f,
              delete-Matches h c (x.handle + 1) hi es xs later m,
            )
    ]

-- An entry that changes elsewhere.
abbrev pub KeepsStream : (NodeEntry ℕ → NodeEntry ℕ) → Type 0
KeepsStream f =
    (e : NodeEntry ℕ)
    → ((f e).node_id ≡ e.node_id)
      × ((f e).connection ≡ e.connection)
      × ((f e).connected ≡ e.connected)

get-change_node :
    (id other : Text) (f : NodeEntry ℕ → NodeEntry ℕ) (es : List (NodeEntry ℕ))
    → KeepsStream f
    → get_node id es ≡ none
    → get_node id (change_node other f es) ≡ none
unfolding get_node change_node
get-change_node id other f [] keeps h = refl
get-change_node id other f (e ∷ es) keeps h =
    let (differs, rest) = get-head id e es h in
    let (same_id, _, _) = keeps e in
    elim (Bool-cases (text_eq e.node_id other)) [
      | inl here ↦ simp (here, same_id, differs) rest
      | inr there ↦ simp (there, differs) (get-change_node id other f es keeps rest)
    ]

pub change_node-Matches :
    (id : Text) (f : NodeEntry ℕ → NodeEntry ℕ) (lo hi : ℕ) (es : List (NodeEntry ℕ))
    (xs : List NodeStream)
    → KeepsStream f
    → Matches lo hi es xs
    → Matches lo hi (change_node id f es) xs
unfolding change_node
change_node-Matches id f lo hi [] xs keeps m = m
change_node-Matches id f lo hi (e ∷ es) [] keeps m = absurd (ground (arith, m))
change_node-Matches id f lo hi (e ∷ es) (x ∷ xs) keeps (above, c, i, l, o, g, m) =
    let (same_id, same_connection, same_connected) = keeps e in
    elim (Bool-cases (text_eq e.node_id id)) [
      | inl here ↦ simp here (
        above,
        same_connection ∙ c,
        same_id ∙ i,
        same_connected ∙ l,
        o,
        ap (λ k. get_node k es) same_id ∙ g,
        m,
      )
      | inr there ↦ simp there (
        above,
        c,
        i,
        l,
        o,
        get-change_node e.node_id id f es keeps g,
        change_node-Matches id f (x.handle + 1) hi es xs keeps m,
      )
    ]
