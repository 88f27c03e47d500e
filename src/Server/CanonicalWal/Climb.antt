-- ===== src/Server/CanonicalWal/Climb.antt =====
-- The order of what `readSince` of packages/server/src/canonicalWal.ts returns, over any log and
-- whatever the file system refuses.
use express_token_revoker.Prelude.{
  ℕ, zero, suc, ◌<◌, Option, List, [], ◌∷◌, arith, All, ltb, length, take, ◌==◌, ◌&&◌, Bool-cases,
  inl, inr,
}
use express_token_revoker.Prelude.Result.{Result, ok, err, Result-cases}
use express_token_revoker.Prelude.Text.{Text}
use express_token_revoker.Server.CanonicalWal.Line.{CanonicalEvent, event_lsn}
use express_token_revoker.Server.CanonicalWal.Files.{read_files}
use express_token_revoker.Server.CanonicalWal.Wal.{Faults, CanonicalWal, list_files}
use express_token_revoker.Server.CanonicalWal.Read.{
  set_lsn, collect, sort_events, cap_events, read_since,
}
use express_token_revoker.Server.CanonicalWal.Delivery.{
  IsAscending, sort_events-IsAscending, collect-IsDistinct, All-insert_event,
}

-- The LSNs strictly ascend from above `n`.
abbrev pub Climbs : ℕ → List CanonicalEvent → Type 0
Climbs n [] = Unit
Climbs n (e ∷ es) = (n < event_lsn e) × Climbs (event_lsn e) es

IsAscending-Climbs :
    (n : ℕ) (es : List CanonicalEvent)
    → All (λ x. n < event_lsn x) es
    → IsAscending es
    → Climbs n es
IsAscending-Climbs n [] above h = tt
IsAscending-Climbs n (e ∷ es) (first, _) (above, h) =
    (first, IsAscending-Climbs (event_lsn e) es above h)

take-Climbs : (k n : ℕ) (es : List CanonicalEvent) → Climbs n es → Climbs n (take k es)
take-Climbs zero n es h = tt
take-Climbs (suc k) n [] h = tt
take-Climbs (suc k) n (e ∷ es) (first, h) = (first, take-Climbs k (event_lsn e) es h)

cap_events-Climbs : (k n : ℕ) (es : List CanonicalEvent) → Climbs n es → Climbs n (cap_events k es)
unfolding cap_events
cap_events-Climbs k n es h = elim (Bool-cases (ltb 0 k && ltb k (length es))) [
  | inl long ↦ rw long (take-Climbs k n es h)
  | inr short ↦ rw short h
]

module _ (P : CanonicalEvent → Type 0) where
  set_lsn-All :
      (e : CanonicalEvent) (es : List CanonicalEvent) → P e → All P es → All P (set_lsn e es)
  unfolding set_lsn
  set_lsn-All e [] p h = (p, tt)
  set_lsn-All e (x ∷ xs) p (px, h) = elim (Bool-cases (event_lsn x == event_lsn e)) [
    | inl same ↦ rw same (p, h)
    | inr other ↦ rw other (px, set_lsn-All e xs p h)
  ]

  sort_events-All : (es : List CanonicalEvent) → All P es → All P (sort_events es)
  unfolding sort_events
  sort_events-All [] h = tt
  sort_events-All (e ∷ es) (p, h) = All-insert_event P e (sort_events es) p (sort_events-All es h)

collect-All :
    (n : ℕ) (by_lsn es : List CanonicalEvent)
    → All (λ x. n < event_lsn x) by_lsn
    → All (λ x. n < event_lsn x) (collect n by_lsn es)
unfolding collect
collect-All n by_lsn [] h = h
collect-All n by_lsn (e ∷ es) h = elim (Bool-cases (ltb n (event_lsn e))) [
  | inl above ↦
      let first : n < event_lsn e = ground (arith, above) in
      rw above
        (collect-All n (set_lsn e by_lsn) es (set_lsn-All (λ x. n < event_lsn x) e by_lsn first h))
  | inr below ↦ rw below (collect-All n by_lsn es h)
]

-- An answer of `readSince` from the cursor `n`: nothing is asked of an error.
abbrev pub AnswerClimbs : ℕ → Result (List CanonicalEvent) → Type 0
AnswerClimbs n (err e) = Unit
AnswerClimbs n (ok es) = Climbs n es

pub read_since-AnswerClimbs :
    (other : Text → Option ℕ) (faults : Faults) (n k : ℕ) (w : CanonicalWal)
    → AnswerClimbs n (read_since other faults n k w)
unfolding read_since
read_since-AnswerClimbs other faults n k w = elim (Bool-cases w.initialized) [
  | inl ready ↦ elim (Result-cases (read_files other faults.unreadable (list_files faults w))) [
    | inl (e, refused) ↦ simp (ready, refused) tt
    | inr (es, found) ↦
        simp (ready, found)
          (cap_events-Climbs k n (sort_events (collect n [] es)) (
            IsAscending-Climbs n (sort_events (collect n [] es))
              (sort_events-All (λ x. n < event_lsn x) (collect n [] es) (collect-All n [] es tt))
              (sort_events-IsAscending (collect n [] es) (collect-IsDistinct n [] es tt))))
  ]
  | inr closed ↦ simp closed tt
]
