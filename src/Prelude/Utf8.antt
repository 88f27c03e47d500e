-- ===== src/Prelude/Utf8.antt =====
-- What a file in UTF-8 makes of a text: each surrogate without its partner is written and read back
-- as the replacement character.
use Prim.Native.Nat.{ℕ, ◌<◌}
use mathlib.Core.Path.{◌≡◌, refl, ◌∙◌, ap, sym}
use mathlib.Core.Bool.{Bool, false, ◌&&◌}
use mathlib.Core.Option.{Option, none, some}
use mathlib.Core.List.{[], ◌∷◌, ◌++◌, append_assoc}
use native.Mathlib.Omega.{arith}
use express_token_revoker.Prelude.Tests.{leb, if◌then◌else◌}
use express_token_revoker.Prelude.Lists.{All}
use express_token_revoker.Prelude.Text.{Text}

abbrev pub replacement : ℕ
replacement = 0xfffd

abbrev pub is_high : ℕ → Bool
is_high c = leb 0xd800 c && leb c 0xdbff

abbrev pub is_low : ℕ → Bool
is_low c = leb 0xdc00 c && leb c 0xdfff

-- What is written when `c` comes, behind a high surrogate that still waits, or none.
abbrev emitted : Option ℕ → ℕ → Text
emitted none c = if is_high c then [] else if is_low c then replacement ∷ [] else c ∷ []
emitted (some h) c =
    if is_low c
    then h ∷ (c ∷ [])
    else if is_high c
    then replacement ∷ []
    else replacement ∷ (c ∷ [])

abbrev waiting : ℕ → Option ℕ
waiting c = if is_high c then some c else none

unfoldable pub stored_behind : Option ℕ → Text → Text
stored_behind none [] = []
stored_behind (some h) [] = replacement ∷ []
stored_behind o (c ∷ s) = emitted o c ++ stored_behind (waiting c) s

abbrev pub stored : Text → Text
stored s = stored_behind none s

-- A text of which every surrogate has its partner.
abbrev pub IsWellFormed : Text → Type 0
IsWellFormed s = stored s ≡ s

stored_behind-snoc :
    (o : Option ℕ) (s : Text) → stored_behind o (s ++ 10 ∷ []) ≡ stored_behind o s ++ 10 ∷ []
unfolding stored_behind
stored_behind-snoc none [] = refl
stored_behind-snoc (some h) [] = refl
stored_behind-snoc none (c ∷ s) =
    ap (λ t. emitted none c ++ t) (stored_behind-snoc (waiting c) s)
    ∙ sym (append_assoc (emitted none c) (stored_behind (waiting c) s) (10 ∷ []))
stored_behind-snoc (some h) (c ∷ s) =
    ap (λ t. emitted (some h) c ++ t) (stored_behind-snoc (waiting c) s)
    ∙ sym (append_assoc (emitted (some h) c) (stored_behind (waiting c) s) (10 ∷ []))

pub stored-snoc : (s : Text) → IsWellFormed s → IsWellFormed (s ++ 10 ∷ [])
stored-snoc s h = stored_behind-snoc none s ∙ ap (λ t. t ++ 10 ∷ []) h

pub stored-append : (s t : Text) → All (λ c. c < 0xd800) s → stored (s ++ t) ≡ s ++ stored t
unfolding stored_behind
stored-append [] t h = refl
stored-append (c ∷ s) t (below, h) =
    let plain : is_high c ≡ false = ground (arith, below) in
    let unpaired : is_low c ≡ false = ground (arith, below) in
    simp (plain, unpaired) (ap (λ u. c ∷ u) (stored-append s t h))

stored_tests :
    (stored (0x61 ∷ (0xd83d ∷ (0xde00 ∷ []))) ≡ 0x61 ∷ (0xd83d ∷ (0xde00 ∷ [])))
    × (stored (0xd83d ∷ (0x61 ∷ [])) ≡ replacement ∷ (0x61 ∷ []))
unfolding stored_behind
stored_tests = (refl, refl)
