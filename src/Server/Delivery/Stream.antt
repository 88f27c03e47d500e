-- ===== src/Server/Delivery/Stream.antt =====
-- The backlog drain of packages/server/src/distributedServer.ts ends, and delivers the backlog.
use express_token_revoker.Prelude.{
  ℕ, zero, suc, ◌+◌, ◌*◌, ◌≤◌, ◌≡◌, refl, sym, ◌∙◌, ap, true, false, Option, List, [], ◌∷◌, ◌++◌,
  arith, map, Bool-cases, inl, inr, length, length-append, take, drop, take-append-drop, ltb,
}
use express_token_revoker.Prelude.Result.{ok}
use express_token_revoker.Prelude.Text.{Text}
use express_token_revoker.Server.CanonicalWal.Line.{CanonicalEvent, event_lsn}
use express_token_revoker.Server.CanonicalWal.Wal.{CanonicalWal, no_faults, last_lsn}
use express_token_revoker.Server.CanonicalWal.Read.{cap_events}
use express_token_revoker.Server.CanonicalWal.Delivery.{delivered, read_since-delivered}
use express_token_revoker.Server.CanonicalWal.Backlog.{delivered-tail}
use express_token_revoker.Server.Delivery.{
  keepalive_event, to_stream_event, Task, drain, write_event, Connection, next_batch, step,
  step_chain, write, write_lsn, new_connection, drain_batch_size, keepalive_sent,
}

-- The connection after the events were written, in this order.
abbrev wrote : List CanonicalEvent → Connection → Connection
wrote [] c = c
wrote (e ∷ es) c = wrote es (record c {
  written = to_stream_event e ∷ c.written;
  last_written_lsn = event_lsn e;
  sent = event_lsn e ∷ c.sent;
})

abbrev with_chain : List Task → Connection → Connection
with_chain tasks c = record c { chain = tasks }

abbrev last_of : ℕ → List CanonicalEvent → ℕ
last_of from [] = from
last_of from (e ∷ es) = last_of (event_lsn e) es

wrote-append :
    (xs ys : List CanonicalEvent) (c : Connection) → wrote (xs ++ ys) c ≡ wrote ys (wrote xs c)
wrote-append [] ys c = refl
wrote-append (x ∷ xs) ys c = wrote-append xs ys _

wrote_open : (es : List CanonicalEvent) (c : Connection) → (wrote es c).is_closed ≡ c.is_closed
wrote_open [] c = refl
wrote_open (e ∷ es) c = wrote_open es _

-- A batch is a part of the backlog, and not empty if that is not.
cap_events-split :
    (x : CanonicalEvent) (xs : List CanonicalEvent)
    → (ys : List CanonicalEvent) × (post : List CanonicalEvent) × (cap_events drain_batch_size
          (x ∷ xs)
        ≡ x ∷ ys)
      × (xs ≡ ys ++ post)
unfolding cap_events
cap_events-split x xs = elim (Bool-cases (ltb drain_batch_size (length (x ∷ xs)))) [
  | inl long ↦ (take 999 xs, drop 999 xs, rw long refl, sym (take-append-drop 999 xs))
  | inr short ↦ (xs, [], rw short refl, sym (append_nil xs))
]
  where
    append_nil : (xs : List CanonicalEvent) → xs ++ [] ≡ xs
    append_nil [] = refl
    append_nil (x ∷ xs) = ap (λ l. x ∷ l) (append_nil xs)

module _ (other : Text → Option ℕ) (w : CanonicalWal) where
  -- Steps of a write chain on which no write is refused, over a log that can be read.
  abbrev pub steps : ℕ → Connection → Connection
  steps zero c = c
  steps (suc k) c = steps k (step other false no_faults w c)

  steps_add : (j k : ℕ) (c : Connection) → steps (j + k) c ≡ steps k (steps j c)
  steps_add zero k c = rw (zero_add k) refl
    where
      zero_add : (k : ℕ) → (0 + k) ≡ k
      zero_add k = omega arith
  steps_add (suc j) k c = rw (suc_add j k) (steps_add j k (step other false no_faults w c))
    where
      suc_add : (j k : ℕ) → (suc j + k) ≡ suc (j + k)
      suc_add j k = omega arith

  delivered-last :
      (from : ℕ) (batch post : List CanonicalEvent)
      → delivered other from w ≡ batch ++ post
      → delivered other (last_of from batch) w ≡ post
  delivered-last from [] post here = here
  delivered-last from (e ∷ es) post here =
      delivered-last (event_lsn e) es post (delivered-tail other from w e (es ++ post) here)

  write_batch :
      (es : List CanonicalEvent) (from : ℕ) (rest : List Task) (c : Connection)
      → c.is_closed ≡ false
      → steps (length es) (record c { chain = drain from es ∷ rest })
        ≡ record (wrote es c) { chain = drain (last_of from es) [] ∷ rest }
  unfolding step step_chain write_lsn
  write_batch [] from rest c is_open = refl
  write_batch (e ∷ es) from rest c is_open = simp is_open (
      write_batch es (event_lsn e) rest
        (record c {
          is_closed = false;
          written = to_stream_event e ∷ c.written;
          last_written_lsn = event_lsn e;
          sent = event_lsn e ∷ c.sent;
        })
        refl)

  read_batch :
      (from : ℕ) (d es : List CanonicalEvent) (rest : List Task) (c : Connection)
      → w.initialized ≡ true
      → c.is_closed ≡ false
      → delivered other from w ≡ d
      → cap_events drain_batch_size d ≡ es
      → step other false no_faults w (record c { chain = drain from [] ∷ rest })
        ≡ next_batch from (ok es) rest (record c { chain = drain from [] ∷ rest })
  unfolding step step_chain
  read_batch from d es rest c ready is_open here capped =
      simp (is_open, read_since-delivered other from drain_batch_size w ready, here, capped) refl

  -- One read, then the writes of a batch, and so on until a read returns nothing.
  drain_all :
      (fuel from : ℕ) (d : List CanonicalEvent) (rest : List Task) (c : Connection)
      → w.initialized ≡ true
      → c.is_closed ≡ false
      → delivered other from w ≡ d
      → length d ≤ fuel
      → (k : ℕ) × (k ≤ 2 * length d + 1)
        × (steps k (record c { chain = drain from [] ∷ rest })
            ≡ record (wrote d c) { chain = rest })
  unfolding next_batch cap_events
  drain_all fuel from [] rest c ready is_open here few =
      (1, omega arith, read_batch from [] [] rest c ready is_open here refl)
  drain_all zero from (x ∷ xs) rest c ready is_open here few = absurd (omega (arith, few))
  drain_all (suc fuel) from (x ∷ xs) rest c ready is_open here few =
      let (ys, post, capped, split) = cap_events-split x xs in
      let size = length-append ys post in
      let whole : delivered other from w ≡ (x ∷ ys) ++ post = here ∙ ap (λ l. x ∷ l) split in
      let longer : length xs ≡ length (ys ++ post) = ap length split in
      let (k, few_steps, ends) =
        drain_all fuel (last_of from (x ∷ ys)) post rest (wrote (x ∷ ys) c) ready
          (wrote_open (x ∷ ys) c ∙ is_open) (delivered-last from (x ∷ ys) post whole)
          (omega (arith, size, few, longer)) in
      let batch = length (x ∷ ys) in
      let read : step other false no_faults w (record c { chain = drain from [] ∷ rest })
          ≡ record c { chain = drain from (x ∷ ys) ∷ rest } =
        read_batch from (x ∷ xs) (x ∷ ys) rest c ready is_open here capped in
      (
        suc (batch + k),
        omega (arith, size, few_steps, longer),
        ap (steps (batch + k)) read
            ∙ steps_add batch k (record c { chain = drain from (x ∷ ys) ∷ rest })
            ∙ ap (steps k) (write_batch (x ∷ ys) from rest c is_open)
            ∙ ends
            ∙ ap (with_chain rest)
                (sym (wrote-append (x ∷ ys) post c) ∙ ap (λ l. wrote (x ∷ l) c) (sym split)),
      )

-- The keepalive behind the drain.
write_marker :
    (other : Text → Option ℕ) (w : CanonicalWal) (lsn generation : ℕ) (c : Connection)
    → c.is_closed ≡ false
    → step other false no_faults w
        (record c { chain = write_event (keepalive_sent lsn generation) ∷ [] })
      ≡ record c { chain = []; written = keepalive_event lsn generation ∷ c.written }
unfolding step step_chain write
write_marker other w lsn generation c is_open = simp is_open refl

abbrev pub reversed_onto : {A : Type 0} → List A → List A → List A
reversed_onto [] ys = ys
reversed_onto (x ∷ xs) ys = reversed_onto xs (x ∷ ys)

wrote_fields :
    (es : List CanonicalEvent) (c : Connection)
    → ((wrote es c).written ≡ reversed_onto (map to_stream_event es) c.written)
      × ((wrote es c).sent ≡ reversed_onto (map event_lsn es) c.sent)
wrote_fields [] c = (refl, refl)
wrote_fields (e ∷ es) c = wrote_fields es _

-- A new subscription over a log that can be read, on which no write is refused: within twice as many
-- steps as there are events above its cursor, and two, the write chain is empty and the stream open,
-- and what was written is the whole backlog in ascending order and then the keepalive.
pub drain_ends :
    (other : Text → Option ℕ) (id : Text) (from generation : ℕ) (w : CanonicalWal)
    → w.initialized ≡ true
    → let d = delivered other from w in
      (k : ℕ) × (k ≤ 2 * length d + 2)
      × (let c = steps other w k (new_connection id from generation w) in
          (c.chain ≡ [])
          × (c.is_closed ≡ false)
          × (c.written
              ≡ keepalive_event (last_lsn w) generation ∷ reversed_onto (map to_stream_event d) [])
          × (c.sent ≡ reversed_onto (map event_lsn d) []))
drain_ends other id from generation w ready =
    let d = delivered other from w in
    let start = new_connection id from generation w in
    let marker = write_event (keepalive_sent (last_lsn w) generation) in
    let (k, few, ends) =
      drain_all other w (length d) from d (marker ∷ []) start ready refl refl (omega arith) in
    let (written, sent) = wrote_fields d start in
    let final =
      steps_add other w k 1 start
      ∙ ap (steps other w 1) ends
      ∙ write_marker other w (last_lsn w) generation (wrote d start) (wrote_open d start) in
    (
      k + 1,
      omega (arith, few),
      (
        ap (λ c. c.chain) final,
        ap (λ c. c.is_closed) final ∙ wrote_open d start,
        ap (λ c. c.written) final ∙ ap (λ l. keepalive_event (last_lsn w) generation ∷ l) written,
        ap (λ c. c.sent) final ∙ sent,
      ),
    )
