-- ===== src/Plant/Jobs/Fence/Recorded.antt =====
-- What it is for an attempt to be settled, and what a match in its ledger shows.
use vaultr.Prelude.{
  ℕ, ◌≡◌, refl, Bool, true, false, inl, inr, Option, none, some, List, [], ◌∷◌, ◌++◌, Any, ◌⊎◌,
  Bool-cases, arith,
}
use mathlib.Core.Option.{none-ne-some, some-injective}
use vaultr.Text.{Text, chars, text_key, lines}
use vaultr.Json.{Value, and_then, is_text, str_at}
use vaultr.Recon.Output.{Parse}
use vaultr.Plant.Jobs.{is_filled}
use vaultr.Plant.Jobs.Fence.{
  AttemptFence, FenceFile, no_fence, fence, LedgerFile, no_ledger, broken_ledger, ledger, Store,
  Receipt, absent, Disk, is_script, declared, Script, matched, has_attempt, ledger_has_attempt,
  lines_of,
}

abbrev pub is_gone : FenceFile → Bool
is_gone no_fence = true
is_gone _ = false

abbrev pub held : AttemptFence → LedgerFile → Store
held f l = record { fence_file = fence f; ledger_file = l }

-- A line that is a record of the attempt.
abbrev pub IsRecord : Parse → Text → Text → Type 0
IsRecord from_str id line =
    (r : Value) × (from_str line ≡ some r) × (is_text id (str_at (chars "attempt_id") r) ≡ true)

-- The attempt may be repeated, or its outcome is in the ledger.
pub data IsSettled (from_str : Parse) (f : AttemptFence) (receipt : Receipt) (declares : Script)
    (after : LedgerFile) : Type 0 where
  repeatable : f.retryable ≡ true → IsSettled from_str f receipt declares after
  recorded :
      Any (IsRecord from_str f.id) (lines_of after) → IsSettled from_str f receipt declares after
  idempotent :
      receipt ≡ absent
      → is_script f.action ≡ true
      → declared declares ≡ some true
      → IsSettled from_str f receipt declares after

-- A ledger that can be read is empty, absent or ends in a newline.
abbrev IsEndedText : Text → Type 0
IsEndedText text = (text ≡ []) ⊎ ((s : Text) × (text ≡ s ++ (10 ∷ [])))

abbrev pub IsEnded : LedgerFile → Type 0
IsEnded (ledger text) = IsEndedText text
IsEnded _ = Unit

abbrev pub IsReadable : LedgerFile → Type 0
IsReadable broken_ledger = ⊥
IsReadable _ = Unit

module _ (from_str : Parse) (to_string : Value → Text) (now : ℕ) (iso_now : Text)
    (disk : Disk) where
  has_attempt-Any :
      (id : Text) (lines : List Text)
      → has_attempt from_str to_string now iso_now disk id lines ≡ some true
      → Any (IsRecord from_str id) lines
  unfolding has_attempt
  has_attempt-Any id [] h = absurd (unmatched h)
    where
      unmatched : some false ≡ some true → ⊥
      unmatched e = ground (arith, some-injective false true e)
  has_attempt-Any id (line ∷ lines) h = elim (Bool-cases (is_filled line)) [
    | inr e ↦ inr (has_attempt-Any id lines (rw e at h))
    | inl e ↦ of_line (from_str line) refl (rw e at h) (λ g. has_attempt-Any id lines g)
  ]
    where
      of_matched :
          (r : Value) (b : Bool)
          → from_str line ≡ some r
          → is_text id (str_at (chars "attempt_id") r) ≡ b
          → matched from_str to_string now iso_now disk b
              (has_attempt from_str to_string now iso_now disk id lines)
            ≡ some true
          → (has_attempt from_str to_string now iso_now disk id lines ≡ some true
              → Any (IsRecord from_str id) lines)
          → Any (IsRecord from_str id) (line ∷ lines)
      of_matched r true p m g later = inl (r, p, m)
      of_matched r false p m g later = inr (later g)

      of_line :
          (o : Option Value)
          → from_str line ≡ o
          → and_then
              (λ r.
                matched from_str to_string now iso_now disk
                  (is_text id (str_at (chars "attempt_id") r))
                  (has_attempt from_str to_string now iso_now disk id lines))
              o
            ≡ some true
          → (has_attempt from_str to_string now iso_now disk id lines ≡ some true
              → Any (IsRecord from_str id) lines)
          → Any (IsRecord from_str id) (line ∷ lines)
      of_line none p g later = absurd (none-ne-some true g)
      of_line (some r) p g later =
          of_matched r (is_text id (str_at (chars "attempt_id") r)) p refl g later

  pub ledger-recorded :
      (f : AttemptFence) (receipt : Receipt) (declares : Script) (l : LedgerFile)
      → ledger_has_attempt from_str to_string now iso_now disk l f.id ≡ some true
      → IsSettled from_str f receipt declares l
  unfolding ledger_has_attempt
  ledger-recorded f receipt declares no_ledger h = ground (arith, some-injective false true h)
  ledger-recorded f receipt declares broken_ledger h = absurd (none-ne-some true h)
  ledger-recorded f receipt declares (ledger text) h =
      recorded (has_attempt-Any f.id (lines text) h)
