-- ===== src/Server/CanonicalWal/Backlog.antt =====
-- What `readSince` of packages/server/src/canonicalWal.ts returns from one cursor and from the next.
use express_token_revoker.Prelude.{
  some-inj, none-ne-some, ℕ, ◌<◌, ◌≡◌, refl, sym, ◌∙◌, ap, true, false, Option, none, some, List,
  [], ◌∷◌, arith, All, All-weaken, ltb, ◌==◌, Bool-cases, inl, inr, ◌⊎◌, if◌then◌else◌,
}
use mathlib.Core.Path.{subst}
use express_token_revoker.Prelude.Text.{Text}
use express_token_revoker.Server.CanonicalWal.Line.{CanonicalEvent, event_lsn}
use express_token_revoker.Server.CanonicalWal.Wal.{CanonicalWal}
use express_token_revoker.Server.CanonicalWal.Delivery.{
  find_lsn, last_with, IsAscending, retained, delivered, find-delivered, delivered-IsAscending,
}

-- An LSN below all of a list is not in it.
find_below :
    (n : ℕ) (es : List CanonicalEvent) → All (λ x. n < event_lsn x) es → find_lsn n es ≡ none
find_below n [] h = refl
find_below n (e ∷ es) (below, h) =
    let other : (event_lsn e == n) ≡ false = ground (arith, below) in rw other (find_below n es h)

find_head :
    (e : CanonicalEvent) (es : List CanonicalEvent) → find_lsn (event_lsn e) (e ∷ es) ≡ some e
find_head e es = let same : (event_lsn e == event_lsn e) ≡ true = ground arith in rw same refl

below-All :
    (n : ℕ) (e : CanonicalEvent) (es : List CanonicalEvent)
    → n < event_lsn e
    → IsAscending (e ∷ es)
    → All (λ x. n < event_lsn x) (e ∷ es)
below-All n e es h (above, _) = (h, All-weaken es (λ x k. omega (arith, h, k)) above)

order_cases : (a b : ℕ) → (a < b) ⊎ (b < a) ⊎ (a ≡ b)
order_cases a b = ground arith

tail_find :
    (e : CanonicalEvent) (xs ys : List CanonicalEvent)
    → IsAscending (e ∷ xs)
    → IsAscending (e ∷ ys)
    → ((n : ℕ) → find_lsn n (e ∷ xs) ≡ find_lsn n (e ∷ ys))
    → (n : ℕ) → find_lsn n xs ≡ find_lsn n ys
tail_find e xs ys (above, _) (above', _) same n = elim (Bool-cases (event_lsn e == n)) [
  | inl here ↦
      let at : n ≡ event_lsn e = ground (arith, here) in
      rw at (find_below (event_lsn e) xs above ∙ sym (find_below (event_lsn e) ys above'))
  | inr other ↦ let both = same n in rw other at both
]

-- An ascending list is determined by what it finds.
ascending_unique :
    (xs ys : List CanonicalEvent)
    → IsAscending xs
    → IsAscending ys
    → ((n : ℕ) → find_lsn n xs ≡ find_lsn n ys)
    → xs ≡ ys
ascending_unique [] [] hx hy same = refl
ascending_unique [] (y ∷ ys) hx hy same =
    absurd (none-ne-some y (same (event_lsn y) ∙ find_head y ys))
ascending_unique (x ∷ xs) [] hx hy same =
    absurd (none-ne-some x (sym (same (event_lsn x)) ∙ find_head x xs))
ascending_unique (x ∷ xs) (y ∷ ys) hx hy same = elim (order_cases (event_lsn x) (event_lsn y)) [
  | inl less ↦ absurd (
      none-ne-some x (
        sym (find_below (event_lsn x) (y ∷ ys) (below-All (event_lsn x) y ys less hy))
        ∙ sym (same (event_lsn x))
        ∙ find_head x xs))
  | inr (inl more) ↦ absurd (
      none-ne-some y (
        sym (find_below (event_lsn y) (x ∷ xs) (below-All (event_lsn y) x xs more hx))
        ∙ same (event_lsn y)
        ∙ find_head y ys))
  | inr (inr equal) ↦
      let one : some x ≡ some y =
        sym (find_head x xs)
        ∙ same (event_lsn x)
        ∙ ap (λ n. find_lsn n (y ∷ ys)) equal
        ∙ find_head y ys in
      let e : x ≡ y = some-inj one in
      let hy' : IsAscending (x ∷ ys) = subst (λ z. IsAscending (z ∷ ys)) (sym e) hy in
      let tails =
        ascending_unique xs ys hx.1 hy.1
          (tail_find x xs ys hx hy' (λ n. same n ∙ ap (λ z. find_lsn n (z ∷ ys)) (sym e))) in
      ap (λ l. x ∷ l) tails ∙ ap (λ z. z ∷ ys) e
]

above_cursor :
    (other : Text → Option ℕ) (from : ℕ) (w : CanonicalWal) (e : CanonicalEvent)
    (post : List CanonicalEvent)
    → delivered other from w ≡ e ∷ post
    → ltb from (event_lsn e) ≡ true
above_cursor other from w e post here = elim (Bool-cases (ltb from (event_lsn e))) [
  | inl above ↦ above
  | inr below ↦
      let missing = rw below at (find-delivered other from (event_lsn e) w) in
      absurd (none-ne-some e (sym missing ∙ ap (find_lsn (event_lsn e)) here ∙ find_head e post))
]

tail_from :
    (other : Text → Option ℕ) (from : ℕ) (w : CanonicalWal) (e : CanonicalEvent)
    (post : List CanonicalEvent)
    → delivered other from w ≡ e ∷ post
    → IsAscending (e ∷ post)
    → (n : ℕ)
    → (if ltb (event_lsn e) n then last_with n (retained other w) else none) ≡ find_lsn n post
tail_from other from w e post here (above, _) n = elim (Bool-cases (ltb (event_lsn e) n)) [
  | inr below ↦
      rw below (sym (find_below n post (All-weaken post (λ x k. ground (arith, below, k)) above)))
  | inl later ↦
      let reached : ltb from n ≡ true =
        ground (arith, later, above_cursor other from w e post here) in
      let other_lsn : (event_lsn e == n) ≡ false = ground (arith, later) in
      let found = rw reached at (find-delivered other from n w) in
      let in_tail = rw other_lsn at (ap (find_lsn n) here) in rw later (sym found ∙ in_tail)
]

-- From the LSN of the first event on, a reader gets the rest.
pub delivered-tail :
    (other : Text → Option ℕ) (from : ℕ) (w : CanonicalWal) (e : CanonicalEvent)
    (post : List CanonicalEvent)
    → delivered other from w ≡ e ∷ post
    → delivered other (event_lsn e) w ≡ post
delivered-tail other from w e post here =
    let ascending : IsAscending (e ∷ post) =
      subst (λ l. IsAscending l) here (delivered-IsAscending other from w) in
    ascending_unique (delivered other (event_lsn e) w) post
      (delivered-IsAscending other (event_lsn e) w) ascending.1
      (λ n. find-delivered other (event_lsn e) n w ∙ tail_from other from w e post here ascending n)
