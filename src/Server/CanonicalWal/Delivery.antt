-- ===== src/Server/CanonicalWal/Delivery.antt =====
-- What `readSince` of packages/server/src/canonicalWal.ts returns.
use express_token_revoker.Prelude.{
  ℕ, ◌<◌, ◌≡◌, refl, ◌∙◌, ap, true, false, Option, none, some, List, [], ◌∷◌, ◌++◌, arith, All,
  All-weaken, leb, ltb, ◌==◌, Bool-cases, if_holds, inl, inr, if◌then◌else◌,
}
use express_token_revoker.Prelude.Result.{ok}
use express_token_revoker.Prelude.Text.{Text}
use express_token_revoker.Server.CanonicalWal.Line.{CanonicalEvent, event_lsn}
use express_token_revoker.Server.CanonicalWal.Files.{
  WalFile, parse_file, read_files, list_generation_files,
}
use express_token_revoker.Server.CanonicalWal.Wal.{CanonicalWal, no_faults}
use express_token_revoker.Server.CanonicalWal.Read.{
  set_lsn, collect, insert_event, sort_events, cap_events, read_since,
}

-- The first event of a list with an LSN, and the last one.
abbrev pub find_lsn : ℕ → List CanonicalEvent → Option CanonicalEvent
find_lsn n [] = none
find_lsn n (e ∷ es) = if event_lsn e == n then some e else find_lsn n es

abbrev pub or_else : Option CanonicalEvent → Option CanonicalEvent → Option CanonicalEvent
or_else none o = o
or_else (some e) o = some e

abbrev pub last_with : ℕ → List CanonicalEvent → Option CanonicalEvent
last_with n [] = none
last_with n (e ∷ es) = or_else (last_with n es) (if event_lsn e == n then some e else none)

-- The LSNs grow from one event to the next.
abbrev pub IsAscending : List CanonicalEvent → Type 0
IsAscending [] = Unit
IsAscending (e ∷ es) = All (λ x. event_lsn e < event_lsn x) es × IsAscending es

-- All events of the log's files, in the order of the files and of their lines.
unfoldable pub retained_files : (Text → Option ℕ) → List WalFile → List CanonicalEvent
retained_files other [] = []
retained_files other (f ∷ fs) = parse_file other f ++ retained_files other fs

unfoldable pub retained : (Text → Option ℕ) → CanonicalWal → List CanonicalEvent
unfolding retained_files
retained other w = retained_files other (list_generation_files w.revoker_id w.directory)

find-set_lsn :
    (n : ℕ) (e : CanonicalEvent) (m : List CanonicalEvent)
    → find_lsn n (set_lsn e m) ≡ (if event_lsn e == n then some e else find_lsn n m)
unfolding set_lsn
find-set_lsn n e [] = refl
find-set_lsn n e (x ∷ m) = ground (arith, find-set_lsn n e m)

find-collect :
    (n from : ℕ) (m es : List CanonicalEvent)
    → find_lsn n (collect from m es)
      ≡ (if ltb from n then or_else (last_with n es) (find_lsn n m) else find_lsn n m)
unfolding collect
find-collect n from m [] = ground arith
find-collect n from m (e ∷ es) = elim (Bool-cases (ltb from (event_lsn e))) [
  | inl above ↦ rw above (find-collect n from (set_lsn e m) es ∙ ground (arith, find-set_lsn n e m))
  | inr below ↦ rw below (find-collect n from m es ∙ ground arith)
]

find-insert_event :
    (n : ℕ) (e : CanonicalEvent) (xs : List CanonicalEvent)
    → find_lsn n (insert_event e xs) ≡ (if event_lsn e == n then some e else find_lsn n xs)
unfolding insert_event
find-insert_event n e [] = refl
find-insert_event n e (x ∷ xs) = ground (arith, find-insert_event n e xs)

find-sort_events : (n : ℕ) (es : List CanonicalEvent) → find_lsn n (sort_events es) ≡ find_lsn n es
unfolding sort_events
find-sort_events n [] = refl
find-sort_events n (e ∷ es) =
    find-insert_event n e (sort_events es)
    ∙ ap (λ o. if event_lsn e == n then some e else o) (find-sort_events n es)

-- No two events have one LSN.
abbrev IsDistinct : List CanonicalEvent → Type 0
IsDistinct [] = Unit
IsDistinct (e ∷ es) = (find_lsn (event_lsn e) es ≡ none) × IsDistinct es

set_lsn-IsDistinct :
    (e : CanonicalEvent) (m : List CanonicalEvent) → IsDistinct m → IsDistinct (set_lsn e m)
unfolding set_lsn
set_lsn-IsDistinct e [] h = (refl, tt)
set_lsn-IsDistinct e (x ∷ m) (h, hs) =
    ground (arith, set_lsn-IsDistinct e m hs, find-set_lsn (event_lsn x) e m)

pub collect-IsDistinct :
    (from : ℕ) (m es : List CanonicalEvent) → IsDistinct m → IsDistinct (collect from m es)
unfolding collect
collect-IsDistinct from m [] h = h
collect-IsDistinct from m (e ∷ es) h =
    collect-IsDistinct from (if ltb from (event_lsn e) then set_lsn e m else m) es
      (if_holds IsDistinct _ (set_lsn-IsDistinct e m h) h)

pub All-insert_event {ℓ} :
    (P : CanonicalEvent → Type ℓ) (e : CanonicalEvent) (xs : List CanonicalEvent)
    → P e
    → All P xs
    → All P (insert_event e xs)
unfolding insert_event
All-insert_event P e [] p h = (p, tt)
All-insert_event P e (x ∷ xs) p (q, h) = elim (Bool-cases (leb (event_lsn e) (event_lsn x))) [
  | inl before ↦ rw before (p, (q, h))
  | inr behind ↦ rw behind (q, All-insert_event P e xs p h)
]

-- An event is inserted in front of the first one with a larger LSN.
insert_event-IsAscending :
    (e : CanonicalEvent) (xs : List CanonicalEvent)
    → find_lsn (event_lsn e) xs ≡ none
    → IsAscending xs
    → IsAscending (insert_event e xs)
unfolding insert_event
insert_event-IsAscending e [] f h = (tt, tt)
insert_event-IsAscending e (x ∷ xs) f (below, h) =
    elim (Bool-cases (leb (event_lsn e) (event_lsn x))) [
      | inl before ↦
          let first : event_lsn e < event_lsn x = ground arith in
          rw before ((first, All-weaken xs (λ y b. omega arith) below), (below, h))
      | inr behind ↦ rw behind (
        All-insert_event (λ y. event_lsn x < event_lsn y) e xs (ground arith) below,
        insert_event-IsAscending e xs (ground arith) h,
      )
    ]

pub sort_events-IsAscending :
    (es : List CanonicalEvent) → IsDistinct es → IsAscending (sort_events es)
unfolding sort_events
sort_events-IsAscending [] h = tt
sort_events-IsAscending (e ∷ es) (new, h) =
    insert_event-IsAscending e (sort_events es) (find-sort_events (event_lsn e) es ∙ new)
      (sort_events-IsAscending es h)

read_files-retained :
    (other : Text → Option ℕ) (fs : List WalFile)
    → read_files other (λ name. false) fs ≡ ok (retained_files other fs)
unfolding read_files retained_files
read_files-retained other [] = refl
read_files-retained other (f ∷ fs) = rw (read_files-retained other fs)

-- What `readSince` returns before it is capped.
unfoldable pub delivered : (Text → Option ℕ) → ℕ → CanonicalWal → List CanonicalEvent
delivered other from w = sort_events (collect from [] (retained other w))

pub read_since-delivered :
    (other : Text → Option ℕ) (from max_events : ℕ) (w : CanonicalWal)
    → w.initialized ≡ true
    → read_since other no_faults from max_events w
      ≡ ok (cap_events max_events (delivered other from w))
unfolding read_since delivered retained
read_since-delivered other from max_events w h = simp (h, read_files-retained)

pub delivered-IsAscending :
    (other : Text → Option ℕ) (from : ℕ) (w : CanonicalWal) → IsAscending (delivered other from w)
unfolding delivered
delivered-IsAscending other from w =
    sort_events-IsAscending _ (collect-IsDistinct from [] (retained other w) tt)

pub find-delivered :
    (other : Text → Option ℕ) (from n : ℕ) (w : CanonicalWal)
    → find_lsn n (delivered other from w)
      ≡ (if ltb from n then last_with n (retained other w) else none)
unfolding delivered
find-delivered other from n w =
    find-sort_events n (collect from [] (retained other w))
    ∙ find-collect n from [] (retained other w)
    ∙ ground arith

-- `readSince` on an initialized log whose files can be read: it returns, the events come in strictly
-- ascending LSN order, and for every LSN above the cursor there is exactly the last event that the
-- files hold for it (so a tombstone overrides its entry), for every other LSN there is none; then
-- the list is capped.
pub read_since_exact :
    (other : Text → Option ℕ) (from max_events n : ℕ) (w : CanonicalWal)
    → w.initialized ≡ true
    → (read_since other no_faults from max_events w
        ≡ ok (cap_events max_events (delivered other from w)))
      × IsAscending (delivered other from w)
      × (find_lsn n (delivered other from w)
          ≡ (if ltb from n then last_with n (retained other w) else none))
read_since_exact other from max_events n w h = (
  read_since-delivered other from max_events w h,
  delivered-IsAscending other from w,
  find-delivered other from n w,
)
