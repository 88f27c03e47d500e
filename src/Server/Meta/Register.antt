-- ===== src/Server/Meta/Register.antt =====
-- `read` and `write` of packages/server/src/meta.ts over any sequence of writes.
use express_token_revoker.Prelude.{◌≡◌, refl, ap, ◌∙◌, true, false, Bool, List, [], ◌∷◌, All, arith}
use express_token_revoker.Prelude.Result.{Result, ok, err}
use express_token_revoker.Server.Coordinator.{MetaState}
use express_token_revoker.Server.Meta.{
  Json, IsFaithful, MetaFiles, WriteFault, no_fault, at_mkdir, at_open, at_write, short_write,
  at_sync, at_close, at_rename, check_shape, read_target, read, write,
}

-- One state after the other is written, each with what its write meets.
unfoldable pub run :
    {T : Type 0} → Json T → List (WriteFault T × MetaState) → MetaFiles T → MetaFiles T
unfolding write
run json [] files = files
run json ((fault, state) ∷ writes) files = run json writes (write json fault state files).1

-- What a single cell holds that takes a state when its write has returned, and keeps what it held
-- when the write has thrown.
unfoldable pub settled : Result (Unit {0}) → MetaState → Result MetaState → Result MetaState
settled (ok _) state held = ok state
settled (err _) state held = held

unfoldable pub register :
    {T : Type 0}
    → Json T
    → List (WriteFault T × MetaState)
    → MetaFiles T
    → Result MetaState
    → Result MetaState
unfolding write settled
register json [] files held = held
register json ((fault, state) ∷ writes) files held =
    let (answer, files') = write json fault state files in
    register json writes files' (settled answer state held)

abbrev pub is_short : {T : Type 0} → WriteFault T → Bool
is_short (short_write part) = true
is_short _ = false

write-settled :
    {T : Type 0} (json : Json T)
    → IsFaithful json
    → (fault : WriteFault T) (state : MetaState) (files : MetaFiles T) → is_short fault ≡ false
    → read json false (write json fault state files).1
      ≡ settled (write json fault state files).0 state (read json false files)
unfolding read read_target write settled check_shape IsFaithful
write-settled json faithful no_fault state files whole = ap check_shape (faithful state)
write-settled json faithful (short_write part) state files whole = absurd (ground (arith, whole))
write-settled json faithful at_mkdir state files whole = refl
write-settled json faithful at_open state files whole = refl
write-settled json faithful (at_write part) state files whole = refl
write-settled json faithful at_sync state files whole = refl
write-settled json faithful at_close state files whole = refl
write-settled json faithful at_rename state files whole = refl

-- After any sequence of writes, each of which may throw at any call of the file system, reading the
-- meta file gives the last state whose write has returned, and if there is none what reading it gave
-- before: the files implement a single cell, and no write that throws leaves a torn or a mixed
-- state. It is assumed that the JSON text of a state parses to its fields, that the file can be
-- read, and that no `writeSync` returns after it has written only a part of the text.
pub writes_are_atomic :
    {T : Type 0} (json : Json T) (faithful : IsFaithful json)
    (writes : List (WriteFault T × MetaState)) (files : MetaFiles T)
    → All (λ w. is_short w.0 ≡ false) writes
    → read json false (run json writes files) ≡ register json writes files (read json false files)
unfolding run register
writes_are_atomic json faithful [] files whole = refl
writes_are_atomic json faithful ((fault, state) ∷ writes) files (first, whole) =
    let r = write json fault state files in
    writes_are_atomic json faithful writes r.1 whole
    ∙ ap (λ held. register json writes r.1 held)
        (write-settled json faithful fault state files first)
