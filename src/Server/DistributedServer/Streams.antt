-- ===== src/Server/DistributedServer/Streams.antt =====
-- The registry of packages/server/src/nodeRegistry.ts against the streams of
-- packages/server/src/distributedServer.ts: the entries and the streams, one by one.
use express_token_revoker.Prelude.{
  some-inj, none-ne-some, ℕ, ◌+◌, ◌≤◌, ◌≡◌, ◌≢◌, refl, sym, ◌∙◌, ap, true, false, none, some, List,
  [], ◌∷◌, ◌++◌, arith, ◌==◌, Bool-cases, inl, inr,
}
use express_token_revoker.Prelude.Text.{Text, text_eq, text_eq_iff}
use express_token_revoker.Server.NodeRegistry.{NodeEntry, get_node, set_node, is_connected}
use express_token_revoker.Server.NodeRegistry.Exclusive.{get-set_node}
use express_token_revoker.Server.Delivery.{Connection}
use express_token_revoker.Server.DistributedServer.{NodeStream, find_stream}

-- The entries are those of the streams, in their order; the streams are open, their handles ascend
-- from `lo` and are below `hi`, and no two are of one node.
abbrev pub Matches : ℕ → ℕ → List (NodeEntry ℕ) → List NodeStream → Type 0
Matches lo hi [] [] = lo ≤ hi
Matches lo hi [] (x ∷ xs) = true ≡ false
Matches lo hi (e ∷ es) [] = true ≡ false
Matches lo hi (e ∷ es) (x ∷ xs) =
    (lo ≤ x.handle)
    × (e.connection ≡ x.handle)
    × (e.node_id ≡ x.connection.node_id)
    × (e.connected ≡ true)
    × (x.connection.is_closed ≡ false)
    × (get_node e.node_id es ≡ none)
    × Matches (x.handle + 1) hi es xs

pub Matches-weaken :
    (lo lo' hi : ℕ) (es : List (NodeEntry ℕ)) (xs : List NodeStream)
    → lo' ≤ lo
    → Matches lo hi es xs
    → Matches lo' hi es xs
Matches-weaken lo lo' hi [] [] h m = omega (arith, h, m)
Matches-weaken lo lo' hi [] (x ∷ xs) h m = m
Matches-weaken lo lo' hi (e ∷ es) [] h m = m
Matches-weaken lo lo' hi (e ∷ es) (x ∷ xs) h (above, c, i, l, o, f, m) =
    (omega (arith, h, above), c, i, l, o, f, m)

pub Matches-raise :
    (lo hi : ℕ) (es : List (NodeEntry ℕ)) (xs : List NodeStream)
    → Matches lo hi es xs
    → Matches lo (hi + 1) es xs
Matches-raise lo hi [] [] m = omega (arith, m)
Matches-raise lo hi [] (x ∷ xs) m = m
Matches-raise lo hi (e ∷ es) [] m = m
Matches-raise lo hi (e ∷ es) (x ∷ xs) (above, c, i, l, o, f, m) =
    (above, c, i, l, o, f, Matches-raise (x.handle + 1) hi es xs m)

Matches-bound :
    (lo hi : ℕ) (es : List (NodeEntry ℕ)) (xs : List NodeStream) → Matches lo hi es xs → lo ≤ hi
Matches-bound lo hi [] [] m = m
Matches-bound lo hi [] (x ∷ xs) m = absurd (ground (arith, m))
Matches-bound lo hi (e ∷ es) [] m = absurd (ground (arith, m))
Matches-bound lo hi (e ∷ es) (x ∷ xs) (above, c, i, l, o, f, m) =
    let rest = Matches-bound (x.handle + 1) hi es xs m in omega (arith, above, rest)

text_eq-sym : (a b : Text) → text_eq a b ≡ false → text_eq b a ≡ false
text_eq-sym a b h = ground (arith, h, text_eq_iff a b, text_eq_iff b a)

-- A node without a connected entry has none.
pub unconnected_is_none :
    (lo hi : ℕ) (id : Text) (es : List (NodeEntry ℕ)) (xs : List NodeStream)
    → Matches lo hi es xs
    → is_connected (get_node id es) ≡ false
    → get_node id es ≡ none
unfolding get_node
unconnected_is_none lo hi id [] xs m h = refl
unconnected_is_none lo hi id (e ∷ es) [] m h = absurd (ground (arith, m))
unconnected_is_none lo hi id (e ∷ es) (x ∷ xs) (above, c, i, live, o, f, m) h =
    elim (Bool-cases (text_eq e.node_id id)) [
      | inl same ↦ let closed = simp same at h in absurd (ground (arith, live, closed))
      | inr other ↦
          let rest = simp other at h in
          simp other (unconnected_is_none (x.handle + 1) hi id es xs m rest)
    ]

pub get-head :
    (id : Text) (e : NodeEntry ℕ) (es : List (NodeEntry ℕ))
    → get_node id (e ∷ es) ≡ none
    → (text_eq e.node_id id ≡ false) × (get_node id es ≡ none)
unfolding get_node
get-head id e es h = elim (Bool-cases (text_eq e.node_id id)) [
  | inl same ↦ let found = simp same at h in absurd (some-ne-none e found)
  | inr other ↦ (other, simp other at h)
]
  where
    some-ne-none : (e : NodeEntry ℕ) → some e ≢ none
    some-ne-none e = cc

-- A node without an entry gets the last one, with the last stream.
pub Matches-snoc :
    (lo hi : ℕ) (new : NodeEntry ℕ) (c : Connection) (es : List (NodeEntry ℕ))
    (xs : List NodeStream)
    → Matches lo hi es xs
    → get_node new.node_id es ≡ none
    → new.connection ≡ hi
    → new.node_id ≡ c.node_id
    → new.connected ≡ true
    → c.is_closed ≡ false
    → Matches lo (hi + 1) (set_node new es) (xs ++ record { handle = hi; connection = c } ∷ [])
unfolding set_node get_node
Matches-snoc lo hi new c [] [] m fresh at id live open_ =
    (m, at, id, live, open_, refl, omega arith)
Matches-snoc lo hi new c [] (x ∷ xs) m fresh at id live open_ = absurd (ground (arith, m))
Matches-snoc lo hi new c (e ∷ es) [] m fresh at id live open_ = absurd (ground (arith, m))
Matches-snoc lo hi new c (e ∷ es) (x ∷ xs) (above, c', i, l, o, f, m) fresh at id live open_ =
    let (other, rest) = get-head new.node_id e es fresh in
    let back : text_eq new.node_id e.node_id ≡ false = text_eq-sym e.node_id new.node_id other in
    let still : get_node e.node_id (set_node new es) ≡ none =
      get-set_node e.node_id new es ∙ simp back f in
    simp other (
      above,
      c',
      i,
      l,
      o,
      still,
      Matches-snoc (x.handle + 1) hi new c es xs m rest at id live open_,
    )

-- The entry of a stream
pub found_entry :
    (lo hi h : ℕ) (c : Connection) (es : List (NodeEntry ℕ)) (xs : List NodeStream)
    → Matches lo hi es xs
    → find_stream h xs ≡ some c
    → get_node c.node_id es ≢ none
unfolding find_stream get_node
found_entry lo hi h c [] [] m found = λ gone. cc
found_entry lo hi h c [] (x ∷ xs) m found = absurd (ground (arith, m))
found_entry lo hi h c (e ∷ es) [] m found = absurd (ground (arith, m))
found_entry lo hi h c (e ∷ es) (x ∷ xs) (above, c', id, l, o, f, m) found = λ gone.
    let (other, rest) = get-head c.node_id e es gone in
    elim (Bool-cases (x.handle == h)) [
      | inl here ↦
          let same : x.connection ≡ c = some-inj (simp here at found) in
          let equal : text_eq e.node_id c.node_id ≡ true =
            (text_eq_iff e.node_id c.node_id).1 (id ∙ ap (λ y. y.node_id) same) in
          absurd (ground (arith, equal, other))
      | inr there ↦ found_entry (x.handle + 1) hi h c es xs m (simp there at found) rest
    ]

pub Matches-open :
    (h : ℕ) (c : Connection) (lo hi : ℕ) (es : List (NodeEntry ℕ)) (xs : List NodeStream)
    → find_stream h xs ≡ some c
    → Matches lo hi es xs
    → c.is_closed ≡ false
unfolding find_stream
Matches-open h c lo hi [] [] found m = absurd (none-ne-some c found)
Matches-open h c lo hi [] (x ∷ xs) found m = absurd (ground (arith, m))
Matches-open h c lo hi (e ∷ es) [] found m = absurd (ground (arith, m))
Matches-open h c lo hi (e ∷ es) (x ∷ xs) found (above, c', i, l, o, f, m) =
    elim (Bool-cases (x.handle == h)) [
      | inl here ↦
          let same : x.connection ≡ c = some-inj (simp here at found) in
          sym (ap (λ y. y.is_closed) same) ∙ o
      | inr there ↦ Matches-open h c (x.handle + 1) hi es xs (simp there at found) m
    ]
