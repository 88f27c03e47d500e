-- ===== src/Server/NodeRegistry/Exclusive.antt =====
-- The stream of a node of packages/server/src/nodeRegistry.ts is the only one until it ends.
use express_token_revoker.Prelude.{
  ℕ, ◌≡◌, refl, ◌∙◌, ap, true, false, none, some, List, [], ◌∷◌, arith, All, Bool-cases, inl, inr,
  if◌then◌else◌,
}
use express_token_revoker.Prelude.Result.{ok, err, validation_error}
use express_token_revoker.Prelude.Text.{Text, text_eq, text_eq_iff, text_eq_refl}
use express_token_revoker.Server.NodeRegistry.{
  NodeEntry, NodeRegistry, get_node, set_node, delete_node, change_node, register_node,
  unregister_node, connection_of, record_sent, touch, is_connected,
}

-- The calls that change a registry in use.
pub data Request (C : Type 0) : Type 0 where
  register : ℕ → Text → C → Request C
  unregister : Text → Request C
  sent : ℕ → Text → ℕ → Request C
  seen : ℕ → Text → Request C

unfoldable pub step : {C : Type 0} → Request C → NodeRegistry C → NodeRegistry C
step (register now id connection) s = (register_node now id connection s).1
step (unregister id) s = (unregister_node id s).1
step (sent now id lsn) s = (record_sent now id lsn s).1
step (seen now id) s = (touch now id s).1

unfoldable pub run : {C : Type 0} → List (Request C) → NodeRegistry C → NodeRegistry C
unfolding step
run [] s = s
run (q ∷ qs) s = run qs (step q s)

-- The request does not end the stream of the node.
abbrev pub Spares : {C : Type 0} → Text → Request C → Type 0
Spares id (unregister other) = text_eq other id ≡ false
Spares id _ = Unit

module _ {C : Type 0} where
  pub get-set_node :
      (id : Text) (e : NodeEntry C) (es : List (NodeEntry C))
      → get_node id (set_node e es) ≡ (if text_eq e.node_id id then some e else get_node id es)
  unfolding get_node set_node
  get-set_node id e [] = refl
  get-set_node id e (x ∷ xs) = ground (
    arith,
    text_eq_iff x.node_id e.node_id,
    text_eq_iff x.node_id id,
    text_eq_iff e.node_id id,
    get-set_node id e xs,
  )

  pub get-delete_node :
      (id other : Text) (es : List (NodeEntry C))
      → text_eq other id ≡ false
      → get_node id (delete_node other es) ≡ get_node id es
  unfolding get_node delete_node
  get-delete_node id other [] h = refl
  get-delete_node id other (x ∷ xs) h =
      ground (arith, h, text_eq_iff x.node_id other, get-delete_node id other xs h)

  -- A change that leaves the stream of every entry alone.
  abbrev LeavesStreams : (NodeEntry C → NodeEntry C) → Type 0
  LeavesStreams f =
      (x : NodeEntry C)
      → ((f x).node_id ≡ x.node_id)
        × ((f x).connected ≡ x.connected)
        × ((f x).connection ≡ x.connection)

  abbrev Holds : Text → C → List (NodeEntry C) → Type 0
  Holds id connection nodes =
      (e : NodeEntry C) × (get_node id nodes ≡ some e)
      × (e.connected ≡ true)
      × (e.connection ≡ connection)

  change_node-Holds :
      (id other : Text) (f : NodeEntry C → NodeEntry C) (connection : C) (es : List (NodeEntry C))
      → LeavesStreams f
      → Holds id connection es
      → Holds id connection (change_node other f es)
  unfolding get_node change_node
  change_node-Holds id other f connection [] leaves h = h
  change_node-Holds id other f connection (x ∷ xs) leaves (e, here, live, same) =
      let (same_id, as_live, as_same) = leaves x in
      elim (Bool-cases (text_eq x.node_id other)) [
        | inl changed ↦ simp changed (elim (Bool-cases (text_eq x.node_id id)) [
          | inl found ↦
              let first = simp found at here in
              let equal : x ≡ e = ground (arith, first) in
              (
                f x,
                simp (same_id, found) refl,
                as_live ∙ ap (λ y. y.connected) equal ∙ live,
                as_same ∙ ap (λ y. y.connection) equal ∙ same,
              )
          | inr passed ↦ (e, simp (same_id, passed) (simp passed at here), live, same)
        ])
        | inr kept ↦ simp kept (elim (Bool-cases (text_eq x.node_id id)) [
          | inl found ↦ (e, simp found (simp found at here), live, same)
          | inr passed ↦
              let (e', there, live', same') =
                change_node-Holds id other f connection xs leaves
                  (e, simp passed at here, live, same) in
              (e', simp passed there, live', same')
        ])
      ]

  -- The registry holds a live stream of the node over the connection.
  abbrev pub Streams : Text → C → NodeRegistry C → Type 0
  Streams id connection none = ⊥
  Streams id connection (some nodes) = Holds id connection nodes

  register_node-Streams :
      (id : Text) (connection : C) (now : ℕ) (other : Text) (fresh : C) (nodes : List (NodeEntry C))
      → Holds id connection nodes
      → Streams id connection (register_node now other fresh (some nodes)).1
  unfolding register_node
  register_node-Streams id connection now other fresh nodes (e, here, live, same) =
      elim (Bool-cases (is_connected (get_node other nodes))) [
        | inl active ↦ rw active (e, here, live, same)
        | inr free ↦ rw free (elim (Bool-cases (text_eq other id)) [
          | inl equal ↦
              let never = rw ((text_eq_iff other id).0 equal, here, live) at free in
              absurd (ground (arith, never))
          | inr differ ↦ (e, get-set_node id _ nodes ∙ rw differ here, live, same)
        ])
      ]

  step-Streams :
      (id : Text) (connection : C) (q : Request C) (s : NodeRegistry C)
      → Spares id q
      → Streams id connection s
      → Streams id connection (step q s)
  unfolding step unregister_node record_sent touch
  step-Streams id connection q none spares h = absurd h
  step-Streams id connection (register now other fresh) (some nodes) spares h =
      register_node-Streams id connection now other fresh nodes h
  step-Streams id connection (unregister other) (some nodes) spares (e, here, live, same) =
      (e, get-delete_node id other nodes spares ∙ here, live, same)
  step-Streams id connection (sent now other lsn) (some nodes) spares h =
      change_node-Holds id other _ connection nodes (λ x. (refl, refl, refl)) h
  step-Streams id connection (seen now other) (some nodes) spares h =
      change_node-Holds id other _ connection nodes (λ x. (refl, refl, refl)) h

  run-Streams :
      (id : Text) (connection : C) (qs : List (Request C)) (s : NodeRegistry C)
      → All (Spares id) qs
      → Streams id connection s
      → Streams id connection (run qs s)
  unfolding run
  run-Streams id connection [] s spares h = h
  run-Streams id connection (q ∷ qs) s (first, rest) h =
      run-Streams id connection qs (step q s) rest (step-Streams id connection q s first h)

  Streams-answers :
      (id : Text) (connection fresh : C) (now : ℕ) (s : NodeRegistry C)
      → Streams id connection s
      → (connection_of id s ≡ ok (some connection))
        × (register_node now id fresh s ≡ (err validation_error, s))
  unfolding connection_of register_node
  Streams-answers id connection fresh now none h = absurd h
  Streams-answers id connection fresh now (some nodes) (e, here, live, same) =
      (rw here (rw (live, same) refl), rw here (rw live refl))

  register_node-opens :
      (id : Text) (connection : C) (now : ℕ) (s : NodeRegistry C)
      → (register_node now id connection s).0 ≡ ok tt
      → Streams id connection (register_node now id connection s).1
  unfolding register_node
  register_node-opens id connection now none done = absurd (ground (arith, done))
  register_node-opens id connection now (some nodes) done =
      elim (Bool-cases (is_connected (get_node id nodes))) [
        | inl active ↦ let never = rw active at done in absurd (ground (arith, never))
        | inr free ↦
            let e : NodeEntry C = record {
              node_id = id;
              last_lsn = 0;
              last_seen_ms = now;
              connected = true;
              connection = connection;
            } in
            rw free (e, get-set_node id e nodes ∙ rw (text_eq_refl id) refl, refl, refl)
      ]

-- After a node has been registered, and after any further registrations, removals of other nodes,
-- and records of deliveries and of keepalives: the registry still gives the node's connection, and
-- refuses to register the node again, without a change.
pub stream_is_exclusive :
    {C : Type 0} (id : Text) (connection fresh : C) (now later : ℕ) (qs : List (Request C))
    (s : NodeRegistry C)
    → (register_node now id connection s).0 ≡ ok tt
    → All (Spares id) qs
    → let v = run qs (register_node now id connection s).1 in
      (connection_of id v ≡ ok (some connection))
      × (register_node later id fresh v ≡ (err validation_error, v))
stream_is_exclusive id connection fresh now later qs s done spares =
    Streams-answers id connection fresh later (run qs (register_node now id connection s).1) (
      run-Streams id connection qs (register_node now id connection s).1 spares
        (register_node-opens id connection now s done))
