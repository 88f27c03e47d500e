-- ===== src/Server/Delivery/Order.antt =====
-- The order of what a connection of packages/server/src/distributedServer.ts writes: the invariant
-- of its write chain, which a step keeps.
use express_token_revoker.Prelude.{
  branch, ℕ, ◌+◌, ◌<◌, ◌≤◌, ◌≡◌, refl, Bool, true, false, Option, none, some, List, [], ◌∷◌, ◌++◌,
  arith, leb, Bool-cases, inl, inr,
}
use express_token_revoker.Prelude.Result.{Result, ok, err}
use express_token_revoker.Prelude.Text.{Text}
use express_token_revoker.Server.CanonicalWal.Line.{CanonicalEvent, event_lsn}
use express_token_revoker.Server.CanonicalWal.Wal.{Faults, CanonicalWal}
use express_token_revoker.Server.CanonicalWal.Read.{read_since}
use express_token_revoker.Server.CanonicalWal.Climb.{Climbs, AnswerClimbs, read_since-AnswerClimbs}
use express_token_revoker.Server.Delivery.{
  StreamEvent, Outbound, outbound_to_stream_event, outbound_lsn, to_stream_event, Task, drain,
  write_event, Connection, close, next_batch, write, write_lsn, step_chain, drain_batch_size,
}

-- The latest first: below `bound`, each above the next, and the last above `from`.
abbrev pub FallsTo : ℕ → ℕ → List ℕ → Type 0
FallsTo from bound [] = from < bound
FallsTo from bound (n ∷ ns) = (n < bound) × FallsTo from n ns

FallsTo-weaken : (from a b : ℕ) (ns : List ℕ) → a ≤ b → FallsTo from a ns → FallsTo from b ns
FallsTo-weaken from a b [] h f = omega (arith, h, f)
FallsTo-weaken from a b (n ∷ ns) h (below, f) = (omega (arith, h, below), f)

-- Only the first task may be the drain, and it is not behind what was written.
abbrev is_drain : Task → Bool
is_drain (drain from es) = true
is_drain (write_event event) = false

abbrev AllWrites : List Task → Type 0
AllWrites [] = Unit
AllWrites (t ∷ ts) = (is_drain t ≡ false) × AllWrites ts

abbrev HeadFrom : ℕ → Task → Type 0
HeadFrom last (drain from es) = (last ≤ from) × Climbs from es
HeadFrom last (write_event event) = Unit

abbrev ChainFrom : ℕ → List Task → Type 0
ChainFrom last [] = Unit
ChainFrom last (t ∷ ts) = HeadFrom last t × AllWrites ts

AllWrites-ChainFrom : (last : ℕ) (ts : List Task) → AllWrites ts → ChainFrom last ts
AllWrites-ChainFrom last [] h = tt
AllWrites-ChainFrom last (write_event event ∷ ts) (_, h) = (tt, h)
AllWrites-ChainFrom last (drain from es ∷ ts) (wrong, h) = cc

AllWrites-append :
    (e : Outbound) (ts : List Task) → AllWrites ts → AllWrites (ts ++ write_event e ∷ [])
AllWrites-append e [] h = (refl, tt)
AllWrites-append e (t ∷ ts) (k, h) = (k, AllWrites-append e ts h)

pub ChainFrom-append :
    (last : ℕ) (e : Outbound) (ts : List Task)
    → ChainFrom last ts
    → ChainFrom last (ts ++ write_event e ∷ [])
ChainFrom-append last e [] h = (tt, tt)
ChainFrom-append last e (t ∷ ts) (k, h) = (k, AllWrites-append e ts h)

pub record IsOrdered (from : ℕ) (c : Connection) : Type 0 where
  pub falls : FallsTo from (c.last_written_lsn + 1) c.sent
  pub chained : ChainFrom c.last_written_lsn c.chain

abbrev pub with_chain : List Task → Connection → Connection
with_chain ts c = record c { chain = ts }

-- The rest of the chain after its first task has ended.
rest-IsOrdered :
    (from : ℕ) (rest : List Task) (c : Connection)
    → AllWrites rest
    → FallsTo from (c.last_written_lsn + 1) c.sent
    → IsOrdered from (with_chain rest c)
rest-IsOrdered from rest c h f = record {
  falls = f;
  chained = AllWrites-ChainFrom c.last_written_lsn rest h;
}

-- The write of an LSN above the last one that was written.
abbrev logged : StreamEvent → ℕ → List Task → Connection → Connection
logged message lsn ts c = record c {
  chain = ts;
  written = message ∷ c.written;
  last_written_lsn = lsn;
  sent = lsn ∷ c.sent;
}

logged-IsOrdered :
    (from : ℕ) (message : StreamEvent) (lsn : ℕ) (ts : List Task) (c : Connection)
    → c.last_written_lsn < lsn
    → ChainFrom lsn ts
    → FallsTo from (c.last_written_lsn + 1) c.sent
    → IsOrdered from (logged message lsn ts c)
logged-IsOrdered from message lsn ts c above h f = record {
  falls = (
    omega arith,
    FallsTo-weaken from (c.last_written_lsn + 1) lsn c.sent (omega (arith, above)) f,
  );
  chained = h;
}

write-IsOrdered :
    (from : ℕ) (refused : Bool) (event : Outbound) (lsn : Option ℕ) (rest : List Task)
    (c : Connection)
    → AllWrites rest
    → FallsTo from (c.last_written_lsn + 1) c.sent
    → IsOrdered from (write refused event lsn (with_chain rest c))
unfolding write write_lsn
write-IsOrdered from true event none rest c h f = rest-IsOrdered from rest (close c) h f
write-IsOrdered from false event none rest c h f =
    rest-IsOrdered from rest (record c { written = outbound_to_stream_event event ∷ c.written }) h f
write-IsOrdered from refused event (some lsn) rest c h f =
    elim (Bool-cases (leb lsn c.last_written_lsn)) [
      | inl seen ↦ simp seen (rest-IsOrdered from rest c h f)
      | inr new ↦
          let above : c.last_written_lsn < lsn = ground (arith, new) in
          simp new (
            branch (IsOrdered from) refused (close (with_chain rest c))
              (logged (outbound_to_stream_event event) lsn rest c)
              (rest-IsOrdered from rest (close c) h f)
              (logged-IsOrdered from (outbound_to_stream_event event) lsn rest c above
                (AllWrites-ChainFrom lsn rest h) f))
    ]

next_batch-IsOrdered :
    (from at : ℕ) (answer : Result (List CanonicalEvent)) (rest : List Task) (c : Connection)
    → AnswerClimbs at answer
    → c.last_written_lsn ≤ at
    → AllWrites rest
    → FallsTo from (c.last_written_lsn + 1) c.sent
    → IsOrdered from (next_batch at answer rest c)
unfolding next_batch
next_batch-IsOrdered from at (err e) rest c a reach h f = rest-IsOrdered from rest (close c) h f
next_batch-IsOrdered from at (ok []) rest c a reach h f = rest-IsOrdered from rest c h f
next_batch-IsOrdered from at (ok (e ∷ es)) rest c a reach h f = record {
  falls = f;
  chained = ((reach, a), h);
}

module _ (other : Text → Option ℕ) (from : ℕ) where
  pub step-IsOrdered :
      (refused : Bool) (faults : Faults) (w : CanonicalWal) (ts : List Task) (c : Connection)
      → ChainFrom c.last_written_lsn ts
      → FallsTo from (c.last_written_lsn + 1) c.sent
      → IsOrdered from (step_chain other refused faults w ts (with_chain ts c))
  unfolding step_chain write_lsn
  step-IsOrdered refused faults w [] c h f = record { falls = f; chained = tt }
  step-IsOrdered refused faults w (write_event event ∷ rest) c (_, h) f =
      branch (IsOrdered from) c.is_closed (with_chain rest c)
        (write refused event (outbound_lsn event) (with_chain rest c))
        (rest-IsOrdered from rest c h f)
        (write-IsOrdered from refused event (outbound_lsn event) rest c h f)
  step-IsOrdered refused faults w (drain at [] ∷ rest) c ((reach, _), h) f =
      branch (IsOrdered from) c.is_closed (with_chain rest c)
        (next_batch at (read_since other faults at drain_batch_size w) rest
          (with_chain (drain at [] ∷ rest) c))
        (rest-IsOrdered from rest c h f)
        (next_batch-IsOrdered from at (read_since other faults at drain_batch_size w) rest
          (with_chain (drain at [] ∷ rest) c)
          (read_since-AnswerClimbs other faults at drain_batch_size w) reach h f)
  step-IsOrdered true faults w (drain at (e ∷ es) ∷ rest) c ((reach, _), h) f =
      branch (IsOrdered from) c.is_closed (with_chain rest c) (close (with_chain rest c))
        (rest-IsOrdered from rest c h f) (rest-IsOrdered from rest (close c) h f)
  step-IsOrdered false faults w (drain at (e ∷ es) ∷ rest) c ((reach, (first, climbs)), h) f =
      branch (IsOrdered from) c.is_closed (with_chain rest c)
        (logged (to_stream_event e) (event_lsn e) (drain (event_lsn e) es ∷ rest) c)
        (rest-IsOrdered from rest c h f)
        (logged-IsOrdered from (to_stream_event e) (event_lsn e) (drain (event_lsn e) es ∷ rest) c
          (omega (arith, reach, first)) ((omega arith, climbs), h) f)
