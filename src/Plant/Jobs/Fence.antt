-- ===== src/Plant/Jobs/Fence.antt =====
-- The attempt fences of crates/plant/src/jobs.rs: `reconcile_fence_at`, `ledger_has_attempt_at`,
-- `append_ledger_record` and `unblock_job`. The files are a store with the ledger's whole text, what the disk does is part of the
-- arguments, and so are the receipt that the agent run left, the clock, and serde_json's parser and
-- printer. The outer option is none for an error.
pub mod Recorded
pub mod Cleared
use vaultr.Prelude.{
  ℕ, Bool, true, false, not, ◌&&◌, ◌||◌, Option, none, some, List, [], ◌∷◌, ◌++◌, any, take,
  if◌then◌else◌,
}
use vaultr.Text.{Text, chars, text_eq, split, lines}
use vaultr.Json.{Value, unsigned, number, string, object_of, and_then, is_text, str_at}
use vaultr.Recon.Output.{Parse}
use vaultr.Plant.Jobs.{JobAction, script, in_process_compression, is_filled}

pub record AttemptFence : Type 0 where
  pub id : Text
  pub started_ts : ℕ
  pub retryable : Bool
  pub action : Option JobAction

pub data FenceFile : Type 0 where
  no_fence unreadable_fence malformed_fence : FenceFile
  fence : AttemptFence → FenceFile

pub data LedgerFile : Type 0 where
  -- not there; or it cannot be read, or is not UTF-8
  no_ledger broken_ledger : LedgerFile
  ledger : Text → LedgerFile

pub record Store : Type 0 where
  pub fence_file : FenceFile
  pub ledger_file : LedgerFile

-- agent_run::lookup_receipt
pub data Receipt : Type 0 where
  conclusive : (outcome detail : Text) → Receipt
  absent pending unreadable_receipt : Receipt

-- How an append ends: all of it is written; or it fails before the file is opened, with the first so
-- many characters written, or within a character.
pub data Write : Type 0 where
  whole not_opened within_character : Write
  part : ℕ → Write

-- Which operations of the disk succeed.
pub record Disk : Type 0 where
  pub sync_match : Bool
  pub write : Write
  pub sync_write : Bool
  pub remove : Bool
  pub sync_attempts : Bool

pub data FenceReconcile : Type 0 where
  ready blocked : FenceReconcile
  resumable_compression : AttemptFence → FenceReconcile

pub data Unblocked : Type 0 where
  none_held already_clear : Unblocked
  cleared : Text → Unblocked

abbrev pub is_compression : Option JobAction → Bool
is_compression (some in_process_compression) = true
is_compression _ = false

abbrev pub is_script : Option JobAction → Bool
is_script (some script) = true
is_script _ = false

-- Whether one of the lines of the first 2048 bytes is the declaration.
unfoldable pub job_declares_idempotence : List ℕ → Bool
job_declares_idempotence bytes =
    any (λ line. text_eq line (chars "# plant: idempotent")) (split 10 (take 2048 bytes))

-- A script's bytes, none where it cannot be read; or no script.
abbrev pub Script : Type 0
Script = Option (Option (List ℕ))

abbrev pub declared : Script → Option Bool
declared none = some false
declared (some none) = none
declared (some (some bytes)) = some (job_declares_idempotence bytes)

unfoldable pub safe_to_repeat : AttemptFence → Script → Option Bool
safe_to_repeat f s = if is_script f.action then declared s else some false

abbrev pub lines_of : LedgerFile → List Text
lines_of (ledger text) = lines text
lines_of _ = []

-- write_all at the end of a file that is opened to append, and created if it is not there.
abbrev pub append : LedgerFile → Text → LedgerFile
append no_ledger s = ledger s
append broken_ledger s = broken_ledger
append (ledger text) s = ledger (text ++ s)

-- What an append leaves, and whether it returned without an error.
abbrev pub write_all : LedgerFile → Text → Write → LedgerFile × Bool
write_all l s whole = (append l s, true)
write_all l s not_opened = (l, false)
write_all l s within_character = (broken_ledger, false)
write_all l s (part n) = (append l (take n s), false)

abbrev pub Outcome : Type 0 → Type 0
Outcome A = Option A × Store

unfoldable pub ledger_record : ℕ → Text → Text → Text → Text → Value
ledger_record now iso_now attempt_id outcome detail = object_of (
    (chars "ts", number (unsigned now))
    ∷ (chars "iso", string iso_now)
    ∷ (chars "attempt_id", string attempt_id)
    ∷ (chars "outcome", string outcome)
    ∷ (chars "duration_ms", number (unsigned 0))
    ∷ (chars "detail", string detail)
    ∷ [])

module _ (from_str : Parse) (to_string : Value → Text) (now : ℕ) (iso_now : Text)
    (disk : Disk) where
  abbrev pub matched : Bool → Option Bool → Option Bool
  matched true rest = if disk.sync_match then some true else none
  matched false rest = rest

  unfoldable pub has_attempt : Text → List Text → Option Bool
  has_attempt id [] = some false
  has_attempt id (line ∷ lines) =
      let rest = has_attempt id lines in
      if not (is_filled line)
      then rest
      else and_then (λ r. matched (is_text id (str_at (chars "attempt_id") r)) rest) (from_str line)

  unfoldable pub ledger_has_attempt : LedgerFile → Text → Option Bool
  unfolding has_attempt
  ledger_has_attempt no_ledger id = some false
  ledger_has_attempt broken_ledger id = none
  ledger_has_attempt (ledger text) id = has_attempt id (lines text)

  -- The record and a newline, appended and synchronised.
  unfoldable pub append_ledger_record : Value → LedgerFile → Option (Unit {0}) × LedgerFile
  append_ledger_record r l =
      let (l', written) = write_all l (to_string r ++ (10 ∷ [])) disk.write in
      (if written && disk.sync_write then some tt else none, l')

  -- The fence's file is removed and its directory synchronised.
  unfoldable pub clear : {A : Type 0} → A → Store → Outcome A
  clear a s = if not disk.remove then (none, s) else (
    if disk.sync_attempts then some a else none,
    record { fence_file = no_fence; ledger_file = s.ledger_file },
  )

  -- A record is appended, and the fence is cleared behind it.
  abbrev pub clear_behind :
      {A : Type 0} → A → FenceFile → Option (Unit {0}) × LedgerFile → Outcome A
  clear_behind a f (none, l) = (none, record { fence_file = f; ledger_file = l })
  clear_behind a f (some u, l) = clear a (record { fence_file = f; ledger_file = l })

  unfoldable pub record_and_clear : {A : Type 0} → A → Value → Store → Outcome A
  unfolding append_ledger_record
  record_and_clear a r s = clear_behind a s.fence_file (append_ledger_record r s.ledger_file)

  abbrev pub repeat_or_block : Option Bool → Store → Outcome FenceReconcile
  repeat_or_block none s = (none, s)
  repeat_or_block (some true) s = clear ready s
  repeat_or_block (some false) s = (some blocked, s)

  abbrev pub by_receipt : AttemptFence → Receipt → Script → Store → Outcome FenceReconcile
  by_receipt f (conclusive outcome detail) declares s =
      record_and_clear ready
        (ledger_record now iso_now f.id outcome
          (chars "reconciled from agent run receipt: " ++ detail))
        s
  by_receipt f absent declares s = repeat_or_block (safe_to_repeat f declares) s
  by_receipt f pending declares s = (some blocked, s)
  by_receipt f unreadable_receipt declares s = (some blocked, s)

  abbrev pub by_ledger :
      AttemptFence → Option Bool → Receipt → Script → Store → Outcome FenceReconcile
  by_ledger f none receipt declares s = (none, s)
  by_ledger f (some true) receipt declares s = clear ready s
  by_ledger f (some false) receipt declares s =
      if is_compression f.action
      then (some (resumable_compression f), s)
      else by_receipt f receipt declares s

  abbrev pub by_fence : FenceFile → Receipt → Script → Store → Outcome FenceReconcile
  by_fence no_fence receipt declares s = (some ready, s)
  by_fence unreadable_fence receipt declares s = (none, s)
  by_fence malformed_fence receipt declares s = (none, s)
  by_fence (fence f) receipt declares s =
      if f.retryable
      then clear ready s
      else by_ledger f (ledger_has_attempt s.ledger_file f.id) receipt declares s

  unfoldable pub reconcile_fence_at : Receipt → Script → Store → Outcome FenceReconcile
  reconcile_fence_at receipt declares s = by_fence s.fence_file receipt declares s

  abbrev pub abandoned : AttemptFence → Value
  abandoned f = ledger_record now iso_now f.id (chars "failed") (
      chars "unblocked by operator: attempt "
      ++ f.id
      ++ chars " abandoned without a durable outcome")

  abbrev pub unblock_by : AttemptFence → Outcome FenceReconcile → Outcome Unblocked
  unblock_by f (none, s) = (none, s)
  unblock_by f (some blocked, s) = record_and_clear (cleared f.id) (abandoned f) s
  unblock_by f (some _, s) = (some already_clear, s)

  abbrev pub unblock_file : FenceFile → Receipt → Script → Store → Outcome Unblocked
  unblock_file no_fence receipt declares s = (some none_held, s)
  unblock_file unreadable_fence receipt declares s = (some none_held, s)
  unblock_file malformed_fence receipt declares s = (none, s)
  unblock_file (fence f) receipt declares s = unblock_by f (reconcile_fence_at receipt declares s)

  -- The attempt's lock is held by the call, or another holds it.
  unfoldable pub unblock_job : Bool → Receipt → Script → Store → Outcome Unblocked
  unblock_job false receipt declares s = (none, s)
  unblock_job true receipt declares s = unblock_file s.fence_file receipt declares s
