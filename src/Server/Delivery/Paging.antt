-- ===== src/Server/Delivery/Paging.antt =====
-- The pages of `PollDeltas` in packages/server/src/distributedServer.ts.
use express_token_revoker.Prelude.{
  ℕ, zero, suc, ◌+◌, ◌≡◌, refl, ap, true, false, Option, List, [], ◌∷◌, arith, map, Bool-cases, inl,
  inr, length, length-take, take, ltb, if◌then◌else◌,
}
use express_token_revoker.Prelude.Result.{ok}
use express_token_revoker.Prelude.Text.{Text}
use express_token_revoker.Server.CanonicalWal.Line.{CanonicalEvent}
use express_token_revoker.Server.CanonicalWal.Wal.{CanonicalWal, no_faults, can_serve_from}
use express_token_revoker.Server.CanonicalWal.Read.{cap_events}
use express_token_revoker.Server.CanonicalWal.Delivery.{delivered, read_since-delivered}
use express_token_revoker.Server.Delivery.{
  resnapshot_event, to_stream_event, page_size, page_of, poll_deltas,
}

take-take_suc : {A : Type 0} (n : ℕ) (xs : List A) → take n (take (n + 1) xs) ≡ take n xs
take-take_suc n xs = rw (add_one n) (take_twice n xs)
  where
    add_one : (n : ℕ) → (n + 1) ≡ suc n
    add_one n = omega arith

    take_twice : {A : Type 0} (n : ℕ) (xs : List A) → take n (take (suc n) xs) ≡ take n xs
    take_twice zero xs = refl
    take_twice (suc n) [] = refl
    take_twice (suc n) (x ∷ xs) = ap (λ l. x ∷ l) (take_twice n xs)

-- One event more than the page is enough to tell whether there are more.
page_of-cap_events :
    (size : ℕ) (d : List CanonicalEvent)
    → page_of size (cap_events (size + 1) d)
      ≡ (map to_stream_event (take size d), ltb size (length d))
unfolding cap_events
page_of-cap_events size d = elim (Bool-cases (ltb (size + 1) (length d))) [
  | inl long ↦
      let positive : ltb 0 (size + 1) ≡ true = ground arith in
      let more : ltb size (length (take (size + 1) d)) ≡ ltb size (length d) =
        ground (arith, long, length-take (size + 1) d) in
      rw (positive, long, take-take_suc size d, more) refl
  | inr short ↦ let positive : ltb 0 (size + 1) ≡ true = ground arith in rw (positive, short) refl
]

-- `PollDeltas` on a log that can be read: below the retention floor the reply is the order to take a
-- snapshot; otherwise it is the first events above the cursor, as many as the page holds, and
-- `moreAvailable` is true exactly if there are more.
pub poll_pages :
    (other : Text → Option ℕ) (from : ℕ) (requested : Option ℕ) (generation : ℕ) (w : CanonicalWal)
    → w.initialized ≡ true
    → let size = page_size requested in
      let d = delivered other from w in
      poll_deltas other no_faults from requested generation w ≡ (
        if can_serve_from from w
        then ok (map to_stream_event (take size d), ltb size (length d))
        else ok (resnapshot_event generation ∷ [], false))
unfolding poll_deltas
poll_pages other from requested generation w ready = elim (Bool-cases (can_serve_from from w)) [
  | inr below ↦ rw below refl
  | inl served ↦
      simp (served, read_since-delivered other from (page_size requested + 1) w ready)
        (ap ok (page_of-cap_events (page_size requested) (delivered other from w)))
]
