-- ===== src/Examples/Scheduling.antt =====
-- Queues, jobs and fences of the scheduler.
use vaultr.Prelude.{
  ◌+◌, ◌-◌, ◌*◌, ◌≡◌, ◌<◌, refl, ap, ◌∙◌, true, map, false, Option, none, some, List, [], ◌∷◌, ◌++◌,
  length, take, drop, arith,
}
use vaultr.Text.{Text, chars, text_eq, text_key, lacks, lines, line_list, split, strip_cr}
use vaultr.Prelude.Map
use vaultr.Json.{Value, get, str_at, entries, of_entries}
use vaultr.Recon.Delta.{is_one_of, or_else}
use vaultr.Plant.Jobs.{script}
use vaultr.Plant.Jobs.Fence.{
  AttemptFence, Disk, Receipt, conclusive, Store, no_ledger, ledger_record, reconcile_fence_at,
  ledger_has_attempt, record_and_clear, append_ledger_record, whole, clear,
}
use vaultr.Plant.Jobs.Fence.Recorded.{held, is_gone, IsSettled}
use vaultr.Plant.Jobs.Fence.Cleared.{IsReadBack, reconcile_fence_at-IsSettled}
use vaultr.Plant.Jobs.Admission.{worker_class, is_ordinary, take_with_reserved, Tick}
use vaultr.Plant.Jobs.Admission.Selection.{Splits, take_with_reserved-Splits}
use vaultr.Plant.Jobs.Admission.Fairness.{is_tried, is_tried-due}
use vaultr.Plant.Jobs.Admission.Positions.{ahead}

abbrev queue : List Text
queue = chars "learn" ∷ chars "health" ∷ chars "audit" ∷ chars "door" ∷ []

take_with_reserved-Splits_example : Splits 1 queue (take_with_reserved queue 1)
take_with_reserved-Splits_example = take_with_reserved-Splits queue 1

abbrev busy : Tick
busy = record { due = queue; is_refused = text_eq (chars "learn") }

door-ordinary : is_ordinary (chars "door") ≡ true
unfolding is_ordinary worker_class text_eq
door-ordinary = refl

door-queued : is_one_of queue (chars "door") ≡ true
unfolding text_eq
door-queued = refl

door-ahead : ahead (chars "door") queue < length (busy ∷ busy ∷ busy ∷ []) * 1
unfolding ahead is_ordinary worker_class text_eq
door-ahead = omega arith

is_tried-due_example : is_tried 1 (chars "door") queue (busy ∷ busy ∷ busy ∷ []) ≡ true
is_tried-due_example =
    is_tried-due 1 (chars "door") queue (busy ∷ busy ∷ busy ∷ []) door-ordinary door-queued
      (door-queued, (door-queued, (door-queued, tt))) door-ahead

-- Records by the length of their outcome, the outcome and the detail, all of it above the control
-- characters.
abbrev shift : Text → Text
shift s = map (λ c. c + 14) s

abbrev unshift : Text → Text
unshift s = map (λ c. c - 14) s

unshift-shift : (s : Text) → unshift (shift s) ≡ s
unshift-shift [] = refl
unshift-shift (c ∷ s) = ground (arith, unshift-shift s)

shift-lacks : (s : Text) → lacks 10 (shift s) ≡ true
shift-lacks [] = refl
shift-lacks (c ∷ s) = ground (arith, shift-lacks s)

strip_cr-shift : (s : Text) → strip_cr (shift s) ≡ shift s
unfolding strip_cr
strip_cr-shift [] = refl
strip_cr-shift (c ∷ []) = ground arith
strip_cr-shift (c ∷ d ∷ s) = ap (◌∷◌ (c + 14)) (strip_cr-shift (d ∷ s))

abbrev outcome_and_detail : Text → Text → Text
outcome_and_detail outcome detail = length outcome ∷ (outcome ++ detail)

abbrev to_line : Value → Text
to_line v = shift (
    outcome_and_detail (or_else [] (str_at (chars "outcome") v))
      (or_else [] (str_at (chars "detail") v)))

abbrev record_of : Text → Option Value
record_of [] = none
record_of (n ∷ s) = some (ledger_record 9 (chars "now") (chars "a1") (take n s) (drop n s))

abbrev of_line : Text → Option Value
of_line s = record_of (unshift s)

take-outcome : (outcome detail : Text) → take (length outcome) (outcome ++ detail) ≡ outcome
take-outcome [] detail = refl
take-outcome (c ∷ outcome) detail = ap (λ (s : Text). c ∷ s) (take-outcome outcome detail)

drop-outcome : (outcome detail : Text) → drop (length outcome) (outcome ++ detail) ≡ detail
drop-outcome [] detail = refl
drop-outcome (c ∷ outcome) detail = drop-outcome outcome detail

abbrev sound_disk : Disk
sound_disk = record {
  sync_match = true;
  write = whole;
  sync_write = true;
  remove = true;
  sync_attempts = true;
}

lines-IsReadBack : IsReadBack of_line to_line 9 (chars "now") sound_disk (chars "a1")
unfolding ledger_record get entries of_entries Map.get text_eq
lines-IsReadBack outcome detail =
    let s = outcome_and_detail outcome detail in
    (
      ap record_of (unshift-shift s)
          ∙ rw (take-outcome outcome detail, drop-outcome outcome detail) refl,
      shift-lacks s,
      strip_cr-shift s,
    )

abbrev held_attempt : AttemptFence
held_attempt = record { id = chars "a1"; started_ts = 3; retryable = false; action = some script }

abbrev succeeded : Receipt
succeeded = conclusive (chars "success") (chars "done")

abbrev after_receipt : Store
after_receipt =
    (reconcile_fence_at of_line to_line 9 (chars "now") sound_disk succeeded none
      (held held_attempt no_ledger)).1

after_receipt-gone : is_gone after_receipt.fence_file ≡ true
unfolding reconcile_fence_at ledger_has_attempt record_and_clear append_ledger_record clear lines
    line_list split
after_receipt-gone = refl

reconcile_fence_at-IsSettled_example :
    IsSettled of_line held_attempt succeeded none after_receipt.ledger_file
reconcile_fence_at-IsSettled_example =
    reconcile_fence_at-IsSettled of_line to_line 9 (chars "now") sound_disk held_attempt
      lines-IsReadBack no_ledger succeeded none tt after_receipt-gone
