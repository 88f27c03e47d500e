-- ===== src/Server/DistributedServer/Agreement.antt =====
-- The registry and the set of streams of packages/server/src/distributedServer.ts agree, through
-- the changes that the operations make.
use express_token_revoker.Prelude.{
  none-ne-some, ℕ, ◌+◌, ◌≡◌, refl, sym, ◌∙◌, ◌⊎◌, true, false, none, some, List, [], ◌∷◌, ◌++◌,
  arith, Bool-cases, inl, inr, ◌≢◌, All, All-weaken, if◌then◌else◌, ltb, length,
}
use express_token_revoker.Prelude.Result.{Result, ok, err}
use express_token_revoker.Prelude.Text.{Text, text_eq, text_eq_iff}
use express_token_revoker.Server.Coordinator.{OutboundEvent}
use express_token_revoker.Server.NodeRegistry.{
  NodeEntry, NodeRegistry, get_node, is_connected, register_node, unregister_node, record_sent,
  touch,
}
use express_token_revoker.Server.Delivery.{Connection}
use express_token_revoker.Server.DistributedServer.{
  DistributedServer, NodeStream, find_stream, put_stream, delete_stream, broadcast_all, recorded,
}
use express_token_revoker.Server.DistributedServer.Streams.{
  Matches, Matches-open, get-head, Matches-raise, Matches-snoc, unconnected_is_none,
}
use express_token_revoker.Server.DistributedServer.Changes.{
  SameStream, broadcast_all-Matches, put_stream-Matches, delete-Matches, change_node-Matches,
}

-- The registry and the streams; before the start and after the end there are none.
abbrev pub Agrees : ℕ → NodeRegistry ℕ → List NodeStream → Type 0
Agrees calls none xs = xs ≡ []
Agrees calls (some es) xs = Matches 0 calls es xs

abbrev pub IsTidy : {R : Type 0} → DistributedServer R → Type 0
IsTidy s = Agrees s.calls s.registry s.connections

pub broadcast_all-nil : (events : List OutboundEvent) → broadcast_all events [] ≡ []
unfolding broadcast_all
broadcast_all-nil [] = refl
broadcast_all-nil (e ∷ es) = rw (broadcast_all-nil es) refl

pub broadcast_all-Agrees :
    (events : List OutboundEvent) (calls : ℕ) (registry : NodeRegistry ℕ) (xs : List NodeStream)
    → Agrees calls registry xs
    → Agrees calls registry (broadcast_all events xs)
broadcast_all-Agrees events calls none xs h = rw h (broadcast_all-nil events)
broadcast_all-Agrees events calls (some es) xs h = broadcast_all-Matches events 0 calls es xs h

pub put_stream-Agrees :
    (h : ℕ) (c d : Connection) (calls : ℕ) (registry : NodeRegistry ℕ) (xs : List NodeStream)
    → SameStream c d
    → find_stream h xs ≡ some c
    → Agrees calls registry xs
    → Agrees calls registry (put_stream h d xs)
unfolding put_stream
put_stream-Agrees h c d calls none xs same found a = rw a refl
put_stream-Agrees h c d calls (some es) xs same found a =
    put_stream-Matches h c d 0 calls es xs same found a

-- A stream that ends, after changes that the registry and the set do not notice.
pub cleanup-Agrees :
    (h : ℕ) (c : Connection) (id : Text) (calls : ℕ) (registry : NodeRegistry ℕ)
    (xs : List NodeStream)
    → id ≡ c.node_id
    → find_stream h xs ≡ some c
    → Agrees calls registry xs
    → Agrees calls (unregister_node id registry).1 (delete_stream h xs)
unfolding unregister_node delete_stream
cleanup-Agrees h c id calls none xs same found a = rw a refl
cleanup-Agrees h c id calls (some es) xs same found a =
    rw same (delete-Matches h c 0 calls es xs found a)

pub touch-Agrees :
    (now : ℕ) (id : Text) (calls : ℕ) (registry : NodeRegistry ℕ) (xs : List NodeStream)
    → Agrees calls registry xs
    → Agrees calls (touch now id registry).1 xs
unfolding touch
touch-Agrees now id calls none xs a = a
touch-Agrees now id calls (some es) xs a =
    change_node-Matches id (λ e. record e { last_seen_ms = now }) 0 calls es xs
      (λ e. (refl, refl, refl)) a

pub record_sent-Agrees :
    (now : ℕ) (id : Text) (lsn calls : ℕ) (registry : NodeRegistry ℕ) (xs : List NodeStream)
    → Agrees calls registry xs
    → Agrees calls (record_sent now id lsn registry).1 xs
unfolding record_sent
record_sent-Agrees now id lsn calls none xs a = a
record_sent-Agrees now id lsn calls (some es) xs a =
    change_node-Matches id
      (λ e. record e {
        last_lsn = if ltb e.last_lsn lsn then lsn else e.last_lsn;
        last_seen_ms = now;
      })
      0 calls es xs (λ e. (refl, refl, refl)) a

pub recorded-Agrees :
    (now : ℕ) (c d : Connection) (calls : ℕ) (registry : NodeRegistry ℕ) (xs : List NodeStream)
    → Agrees calls registry xs
    → Agrees calls (recorded now c d registry) xs
recorded-Agrees now c d calls registry xs a =
    elim (Bool-cases (ltb (length c.sent) (length d.sent))) [
      | inl wrote ↦
          simp wrote (record_sent-Agrees now d.node_id d.last_written_lsn calls registry xs a)
      | inr idle ↦ simp idle a
    ]

-- The result of a registration: a refusal leaves the registry as it was, or else the stream joins.
abbrev pub Registers :
    ℕ → List NodeStream → Connection → Result (Unit {0}) × NodeRegistry ℕ → Type 0
Registers calls xs c (err e, registry) = Agrees calls registry xs
Registers calls xs c (ok _, registry) =
    Agrees (calls + 1) registry (xs ++ record { handle = calls; connection = c } ∷ [])

pub register-Registers :
    (now calls : ℕ) (id : Text) (c : Connection) (registry : NodeRegistry ℕ) (xs : List NodeStream)
    → c.node_id ≡ id
    → c.is_closed ≡ false
    → Agrees calls registry xs
    → Registers calls xs c (register_node now id calls registry)
unfolding register_node
register-Registers now calls id c none xs same open_ a = a
register-Registers now calls id c (some es) xs same open_ a =
    elim (Bool-cases (is_connected (get_node id es))) [
      | inl taken ↦ simp taken a
      | inr free ↦ simp free (
          Matches-snoc 0 calls
            (record {
              node_id = id;
              last_lsn = 0;
              last_seen_ms = now;
              connected = true;
              connection = calls;
            })
            c es xs a (unconnected_is_none 0 calls id es xs a free) refl (sym same) refl open_)
    ]

pub raise-Agrees :
    (calls : ℕ) (registry : NodeRegistry ℕ) (xs : List NodeStream)
    → Agrees calls registry xs
    → Agrees (calls + 1) registry xs
raise-Agrees calls none xs a = a
raise-Agrees calls (some es) xs a = Matches-raise 0 calls es xs a

pub found_open :
    (h : ℕ) (c : Connection) (calls : ℕ) (registry : NodeRegistry ℕ) (xs : List NodeStream)
    → find_stream h xs ≡ some c
    → Agrees calls registry xs
    → c.is_closed ≡ false
unfolding find_stream
found_open h c calls none xs found a = let never = simp a at found in absurd (none-ne-some c never)
found_open h c calls (some es) xs found a = Matches-open h c 0 calls es xs found a

-- No two streams are of one node.
abbrev pub HasDistinctNodes : List NodeStream → Type 0
HasDistinctNodes [] = Unit
HasDistinctNodes (x ∷ xs) =
    All (λ y. y.connection.node_id ≢ x.connection.node_id) xs × HasDistinctNodes xs

abbrev pub AllOpen : List NodeStream → Type 0
AllOpen xs = All (λ x. x.connection.is_closed ≡ false) xs

absent-All :
    (lo hi : ℕ) (id : Text) (es : List (NodeEntry ℕ)) (xs : List NodeStream)
    → get_node id es ≡ none
    → Matches lo hi es xs
    → All (λ y. y.connection.node_id ≢ id) xs
absent-All lo hi id [] [] f m = tt
absent-All lo hi id [] (x ∷ xs) f m = absurd (ground (arith, m))
absent-All lo hi id (e ∷ es) [] f m = absurd (ground (arith, m))
absent-All lo hi id (e ∷ es) (x ∷ xs) f (above, c, i, l, o, g, m) =
    let (differs, rest) = get-head id e es f in
    (
      λ same. absurd (
          let equal : text_eq e.node_id id ≡ true = (text_eq_iff e.node_id id).1 (i ∙ same) in
          ground (arith, equal, differs)),
      absent-All (x.handle + 1) hi id es xs rest m,
    )

-- The node and the handle of each entry, and of each stream.
abbrev pub registered : List (NodeEntry ℕ) → List (Text × ℕ)
registered [] = []
registered (e ∷ es) = (e.node_id, e.connection) ∷ registered es

abbrev pub streaming : List NodeStream → List (Text × ℕ)
streaming [] = []
streaming (x ∷ xs) = (x.connection.node_id, x.handle) ∷ streaming xs

pub agreed :
    (calls : ℕ) (registry : NodeRegistry ℕ) (xs : List NodeStream)
    → Agrees calls registry xs
    → ((registry ≡ none) × (xs ≡ []))
      ⊎ ((nodes : List (NodeEntry ℕ)) × (registry ≡ some nodes)
          × (registered nodes ≡ streaming xs)
          × AllOpen xs
          × HasDistinctNodes xs)
agreed calls none xs a = inl (refl, a)
agreed calls (some es) xs a =
    let (same, are_open, distinct) = each 0 calls es xs a in
    inr (es, refl, same, are_open, distinct)
  where
    each :
        (lo hi : ℕ) (es : List (NodeEntry ℕ)) (xs : List NodeStream)
        → Matches lo hi es xs
        → (registered es ≡ streaming xs) × AllOpen xs × HasDistinctNodes xs
    each lo hi [] [] m = (refl, tt, tt)
    each lo hi [] (x ∷ xs) m = absurd (ground (arith, m))
    each lo hi (e ∷ es) [] m = absurd (ground (arith, m))
    each lo hi (e ∷ es) (x ∷ xs) (above, c, i, l, o, g, m) =
        let (same, are_open, distinct) = each (x.handle + 1) hi es xs m in
        let absent = absent-All (x.handle + 1) hi e.node_id es xs g m in
        (
          cc,
          (o, are_open),
          (All-weaken xs (λ y differs same'. differs (same' ∙ sym i)) absent, distinct),
        )
