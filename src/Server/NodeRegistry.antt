-- ===== src/Server/NodeRegistry.antt =====
-- The class `NodeRegistry` of packages/server/src/nodeRegistry.ts. The state is the map `#nodes`, in
-- the order of its keys' insertion; `none` is `null`. A connection is of a type `C`, and `now` is
-- `Date.now()`.
pub mod Exclusive
use express_token_revoker.Prelude.{
  ℕ, Bool, true, false, Option, none, some, List, [], ◌∷◌, map, ltb, if◌then◌else◌,
}
use express_token_revoker.Prelude.Result.{Result, ok, err, internal_error, validation_error, ◌>>=◌}
use express_token_revoker.Prelude.Text.{Text, text_eq}

pub record NodeEntry (C : Type 0) : Type 0 where
  pub node_id : Text
  pub last_lsn : ℕ
  pub last_seen_ms : ℕ
  pub connected : Bool
  pub connection : C

pub record NodeEntryView : Type 0 where
  pub node_id : Text
  pub last_lsn : ℕ
  pub last_seen_ms : ℕ
  pub connected : Bool

abbrev pub NodeRegistry : Type 0 → Type 0
NodeRegistry C = Option (List (NodeEntry C))

module _ {C : Type 0} where
  -- `Map.get`, `Map.set` and `Map.delete`
  unfoldable pub get_node : Text → List (NodeEntry C) → Option (NodeEntry C)
  get_node id [] = none
  get_node id (e ∷ es) = if text_eq e.node_id id then some e else get_node id es

  unfoldable pub set_node : NodeEntry C → List (NodeEntry C) → List (NodeEntry C)
  set_node e [] = e ∷ []
  set_node e (x ∷ xs) = if text_eq x.node_id e.node_id then e ∷ xs else x ∷ set_node e xs

  unfoldable pub delete_node : Text → List (NodeEntry C) → List (NodeEntry C)
  delete_node id [] = []
  delete_node id (x ∷ xs) = if text_eq x.node_id id then xs else x ∷ delete_node id xs

  -- `init`
  unfoldable pub open_registry : NodeRegistry C → Result (Unit {0}) × NodeRegistry C
  open_registry (some nodes) = (err internal_error, some nodes)
  open_registry none = (ok tt, some [])

  abbrev pub require_map : NodeRegistry C → Result (List (NodeEntry C))
  require_map none = err internal_error
  require_map (some nodes) = ok nodes

  abbrev pub is_connected : Option (NodeEntry C) → Bool
  is_connected none = false
  is_connected (some e) = e.connected

  unfoldable pub register_node : ℕ → Text → C → NodeRegistry C → Result (Unit {0}) × NodeRegistry C
  unfolding get_node set_node
  register_node now id connection none = (err internal_error, none)
  register_node now id connection (some nodes) =
      if is_connected (get_node id nodes) then (err validation_error, some nodes) else (
        ok tt,
        some (
            set_node
              (record {
                node_id = id;
                last_lsn = 0;
                last_seen_ms = now;
                connected = true;
                connection = connection;
              })
              nodes),
      )

  unfoldable pub unregister_node : Text → NodeRegistry C → Result (Unit {0}) × NodeRegistry C
  unfolding delete_node
  unregister_node id none = (err internal_error, none)
  unregister_node id (some nodes) = (ok tt, some (delete_node id nodes))

  abbrev pub view : NodeEntry C → NodeEntryView
  view e = record {
    node_id = e.node_id;
    last_lsn = e.last_lsn;
    last_seen_ms = e.last_seen_ms;
    connected = e.connected;
  }

  unfoldable pub find_node : Text → NodeRegistry C → Result (Option NodeEntryView)
  unfolding get_node
  find_node id s = do
    nodes ← require_map s
    ok (elim (get_node id nodes) [ none ↦ none | some e ↦ some (view e) ])

  unfoldable pub connection_of : Text → NodeRegistry C → Result (Option C)
  unfolding get_node
  connection_of id s = do
    nodes ← require_map s
    ok (elim (get_node id nodes) [
      | none ↦ none
      | some e ↦ if e.connected then some e.connection else none
    ])

  unfoldable pub list_nodes : NodeRegistry C → Result (List NodeEntryView)
  list_nodes s = do nodes ← require_map s; ok (map view nodes)

  -- An entry is changed in place: the map holds a reference to it.
  unfoldable pub change_node :
      Text → (NodeEntry C → NodeEntry C) → List (NodeEntry C) → List (NodeEntry C)
  change_node id f [] = []
  change_node id f (x ∷ xs) = if text_eq x.node_id id then f x ∷ xs else x ∷ change_node id f xs

  unfoldable pub record_sent : ℕ → Text → ℕ → NodeRegistry C → Result (Unit {0}) × NodeRegistry C
  unfolding change_node
  record_sent now id lsn none = (err internal_error, none)
  record_sent now id lsn (some nodes) = (
    ok tt,
    some (
        change_node id
          (λ e. record e {
            last_lsn = if ltb e.last_lsn lsn then lsn else e.last_lsn;
            last_seen_ms = now;
          })
          nodes),
  )

  unfoldable pub touch : ℕ → Text → NodeRegistry C → Result (Unit {0}) × NodeRegistry C
  unfolding change_node
  touch now id none = (err internal_error, none)
  touch now id (some nodes) =
      (ok tt, some (change_node id (λ e. record e { last_seen_ms = now }) nodes))

  -- `destroy`, with the connections that it closes
  unfoldable pub close_registry : NodeRegistry C → Result (List C) × NodeRegistry C
  close_registry none = (err internal_error, none)
  close_registry (some nodes) = (ok (map (λ e. e.connection) nodes), none)

  unfoldable pub is_empty : NodeRegistry C → Result Bool
  is_empty s = do nodes ← require_map s; ok (elim nodes [ [] ↦ true | e ∷ es ↦ false ])
