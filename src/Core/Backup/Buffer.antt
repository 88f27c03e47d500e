-- ===== src/Core/Backup/Buffer.antt =====
-- The write buffer of packages/core/src/BloomFilterBackupManager.ts.
use express_token_revoker.Prelude.{
  ℕ, ◌<◌, ◌≤◌, ◌≡◌, refl, true, false, some, List, [], ◌∷◌, arith, leb, ltb, Bool-cases, inl, inr,
  length, length-append,
}
use express_token_revoker.Prelude.Result.{ok}
use express_token_revoker.Prelude.Text.{Text}
use express_token_revoker.Core.FilterManager.Health.{is_ok}
use express_token_revoker.Core.Backup.{
  Append, written, refused, cut_off, BackupManager, backup_item, flush_begin, flush_end,
}

-- The calls that change the buffer: a token, and the end of a flush.
pub data BufferCall : Type 0 where
  put_item : (ℕ → Append) → Text → BufferCall
  end_flush : Append → Text → BufferCall

unfoldable pub after_call : BufferCall → BackupManager → BackupManager
after_call (put_item attempts item) b = (backup_item attempts item b).1
after_call (end_flush outcome text) b = flush_end outcome text b

unfoldable pub after_calls : List BufferCall → BackupManager → BackupManager
unfolding after_call
after_calls [] b = b
after_calls (c ∷ cs) b = after_calls cs (after_call c b)

-- A buffered manager, with a number of tokens within its limit.
abbrev pub IsBounded : BackupManager → Type 0
IsBounded b =
    (b.options.buffer_enabled ≡ true) × (length b.write_buffer ≤ b.options.max_buffer_size)

put_item-IsBounded :
    (attempts : ℕ → Append) (item : Text) (b : BackupManager)
    → IsBounded b
    → IsBounded (backup_item attempts item b).1
unfolding backup_item
put_item-IsBounded attempts item b (enabled, fits) =
    simp enabled (elim (Bool-cases (leb b.options.max_buffer_size (length b.write_buffer))) [
      | inl full ↦ simp full (enabled, fits)
      | inr room ↦
          simp room (enabled, ground (arith, room, length-append b.write_buffer (item ∷ [])))
    ])

after_call-IsBounded :
    (c : BufferCall) (b : BackupManager) → IsBounded b → IsBounded (after_call c b)
unfolding after_call flush_end
after_call-IsBounded (put_item attempts item) b bounded = put_item-IsBounded attempts item b bounded
after_call-IsBounded (end_flush refused text) b bounded = bounded
after_call-IsBounded (end_flush (cut_off part) text) b bounded = bounded
after_call-IsBounded (end_flush written text) b (enabled, fits) = (enabled, omega arith)

after_calls-IsBounded :
    (cs : List BufferCall) (b : BackupManager) → IsBounded b → IsBounded (after_calls cs b)
unfolding after_calls
after_calls-IsBounded [] b bounded = bounded
after_calls-IsBounded (c ∷ cs) b bounded =
    after_calls-IsBounded cs (after_call c b) (after_call-IsBounded c b bounded)

-- With the buffer enabled, the buffer never holds more than its limit, through tokens and through
-- flushes that work, fail, or write a part, and a token is refused exactly when the buffer is full.
pub buffer_bounded :
    (cs : List BufferCall) (attempts : ℕ → Append) (item : Text) (b : BackupManager)
    → IsBounded b
    → let w = after_calls cs b in
      (length w.write_buffer ≤ w.options.max_buffer_size)
      × (is_ok (backup_item attempts item w).0
          ≡ ltb (length w.write_buffer) w.options.max_buffer_size)
unfolding backup_item
buffer_bounded cs attempts item b bounded =
    let w = after_calls cs b in
    let (enabled, fits) = after_calls-IsBounded cs b bounded in
    (fits, ground (arith, enabled, fits))

-- A token that comes while a flush of a buffer with room is under way is accepted, and when the
-- flush has worked, memory and files are as if it had never come.
pub flush_drops_late_item :
    (attempts : ℕ → Append) (item text : Text) (b : BackupManager)
    → b.options.buffer_enabled ≡ true
    → length b.write_buffer < b.options.max_buffer_size
    → flush_begin b ≡ some text
    → ((backup_item attempts item b).0 ≡ ok tt)
      × (flush_end written text (backup_item attempts item b).1 ≡ flush_end written text b)
unfolding backup_item flush_end
flush_drops_late_item attempts item text b enabled room begun =
    let below : leb b.options.max_buffer_size (length b.write_buffer) ≡ false =
      ground (arith, room) in
    simp (enabled, below) (refl, refl)
