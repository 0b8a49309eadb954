-- ===== src/Plant/Jobs/Fence/Cleared.antt =====
-- What is known when a fence is gone.
use vaultr.Prelude.{
  ℕ, ◌≡◌, refl, sym, subst, Bool, true, false, inl, inr, Option, none, some, [], ◌∷◌, ◌++◌, Any,
  ◌&&◌, if◌then◌else◌, Bool-cases, arith,
}
use mathlib.Core.Option.{none-ne-some, some-injective}
use vaultr.Prelude.Map
use vaultr.Text.{Text, text_eq, text_key, text_eq_refl, lacks, strip_cr}
use vaultr.Text.Lines.{Any-last_line, Any-ended}
use vaultr.Json.{Value, entries, of_entries, get}
use vaultr.Recon.Output.{Parse}
use vaultr.Plant.Jobs.Fence.{
  AttemptFence, fence, LedgerFile, no_ledger, broken_ledger, ledger, Store, Receipt, conclusive,
  absent, pending, unreadable_receipt, Disk, ready, is_compression, is_script, Script,
  safe_to_repeat, ledger_has_attempt, ledger_record, lines_of, Write, whole, not_opened,
  within_character, part, append, write_all, append_ledger_record, clear, clear_behind,
  record_and_clear, repeat_or_block, by_receipt, by_ledger, reconcile_fence_at,
}
use vaultr.Plant.Jobs.Fence.Recorded.{
  is_gone, held, IsRecord, IsSettled, repeatable, recorded, idempotent, IsEnded, IsReadable,
  ledger-recorded,
}

module _ (from_str : Parse) (to_string : Value → Text) (now : ℕ) (iso_now : Text)
    (disk : Disk) where
  clear-ledger :
      {A : Type 0} (a : A) (s : Store)
      → (clear from_str to_string now iso_now disk a s).1.ledger_file ≡ s.ledger_file
  unfolding clear
  clear-ledger a s = elim (Bool-cases disk.remove) [ inl e ↦ rw e refl | inr e ↦ rw e refl ]

  -- The records of an attempt are printed on one line each, and read back as they were written.
  abbrev pub IsReadBack : Text → Type 0
  IsReadBack id =
      (outcome detail : Text)
      → let r = ledger_record now iso_now id outcome detail in
        (from_str (to_string r) ≡ some r)
        × (lacks 10 (to_string r) ≡ true)
        × (strip_cr (to_string r) ≡ to_string r)

  module _ (f : AttemptFence) (reads : IsReadBack f.id) where
    ledger_record-IsRecord :
        (outcome detail : Text)
        → IsRecord from_str f.id (to_string (ledger_record now iso_now f.id outcome detail))
    ledger_record-IsRecord outcome detail = (
      ledger_record now iso_now f.id outcome detail,
      (reads outcome detail).0,
      unfold ledger_record get entries of_entries Map.get text_eq in (text_eq_refl f.id),
    )

    append-recorded :
        (l : LedgerFile) (outcome detail : Text)
        → IsEnded l
        → IsReadable l
        → let line = to_string (ledger_record now iso_now f.id outcome detail) in
          Any (IsRecord from_str f.id) (lines_of (append l (line ++ (10 ∷ []))))
    append-recorded broken_ledger outcome detail h k = absurd k
    append-recorded no_ledger outcome detail h k =
        Any-last_line (IsRecord from_str f.id) _ (reads outcome detail).1 (reads outcome detail).2
          (ledger_record-IsRecord outcome detail)
    append-recorded (ledger text) outcome detail h k =
        Any-ended (IsRecord from_str f.id) text _ h (reads outcome detail).1
          (reads outcome detail).2 (ledger_record-IsRecord outcome detail)

    -- A fence that is gone behind a record has left it in the ledger.
    record_and_clear-recorded :
        {A : Type 0} (a : A) (l : LedgerFile) (outcome detail : Text) (receipt : Receipt)
        (declares : Script)
        → IsEnded l
        → IsReadable l
        → let after =
            (record_and_clear from_str to_string now iso_now disk a
              (ledger_record now iso_now f.id outcome detail)
              (held f l)).1 in
          is_gone after.fence_file ≡ true → IsSettled from_str f receipt declares after.ledger_file
    unfolding record_and_clear append_ledger_record
    record_and_clear-recorded a l outcome detail receipt declares h k g = by_write disk.write g
      where
        r : Value
        r = ledger_record now iso_now f.id outcome detail

        still_held : false ≡ true → ⊥
        still_held h = ground (arith, h)

        by_write :
            (w : Write)
            → let (l', written) = write_all l (to_string r ++ (10 ∷ [])) w in
              let after =
                (clear_behind from_str to_string now iso_now disk a
                  (fence f)
                  (if written && disk.sync_write then some tt else none, l')).1 in
              is_gone after.fence_file ≡ true
              → IsSettled from_str f receipt declares after.ledger_file
        by_write not_opened g = ground (arith, g)
        by_write within_character g = ground (arith, g)
        by_write (part n) g = ground (arith, g)
        by_write whole g = elim (Bool-cases disk.sync_write) [
          | inr d ↦ absurd (still_held (rw d at g))
          | inl d ↦ rw d (rw (clear-ledger a _) (recorded (append-recorded l outcome detail h k)))
        ]

    repeat_or_block-idempotent :
        (l : LedgerFile) (declares : Script) (o : Option Bool)
        → safe_to_repeat f declares ≡ o
        → is_gone (repeat_or_block from_str to_string now iso_now disk o (held f l)).1.fence_file
          ≡ true
        → IsSettled from_str f absent declares
            (repeat_or_block from_str to_string now iso_now disk o (held f l)).1.ledger_file
    unfolding safe_to_repeat
    repeat_or_block-idempotent l declares none e g = ground (arith, g)
    repeat_or_block-idempotent l declares (some false) e g = ground (arith, g)
    repeat_or_block-idempotent l declares (some true) e g = elim (Bool-cases (is_script f.action)) [
      | inl s ↦ idempotent refl s (rw s at e)
      | inr s ↦ ground (arith, some-injective false true (rw s at e))
    ]

    by_receipt-IsSettled :
        (l : LedgerFile) (receipt : Receipt) (declares : Script)
        → IsEnded l
        → IsReadable l
        → is_gone
            (by_receipt from_str to_string now iso_now disk f receipt declares
              (held f l)).1.fence_file
          ≡ true
        → IsSettled from_str f receipt declares
            (by_receipt from_str to_string now iso_now disk f receipt declares
              (held f l)).1.ledger_file
    by_receipt-IsSettled l (conclusive outcome detail) declares h k g =
        record_and_clear-recorded ready l outcome _ (conclusive outcome detail) declares h k g
    by_receipt-IsSettled l absent declares h k g =
        repeat_or_block-idempotent l declares (safe_to_repeat f declares) refl g
    by_receipt-IsSettled l pending declares h k g = ground (arith, g)
    by_receipt-IsSettled l unreadable_receipt declares h k g = ground (arith, g)

    readable :
        (l : LedgerFile)
        → ledger_has_attempt from_str to_string now iso_now disk l f.id ≡ some false
        → IsReadable l
    unfolding ledger_has_attempt
    readable no_ledger e = tt
    readable broken_ledger e = none-ne-some false e
    readable (ledger text) e = tt

    by_ledger-IsSettled :
        (l : LedgerFile) (o : Option Bool) (receipt : Receipt) (declares : Script)
        → IsEnded l
        → ledger_has_attempt from_str to_string now iso_now disk l f.id ≡ o
        → is_gone
            (by_ledger from_str to_string now iso_now disk f o receipt declares
              (held f l)).1.fence_file
          ≡ true
        → IsSettled from_str f receipt declares
            (by_ledger from_str to_string now iso_now disk f o receipt declares
              (held f l)).1.ledger_file
    by_ledger-IsSettled l none receipt declares h e g = ground (arith, g)
    by_ledger-IsSettled l (some true) receipt declares h e g =
        subst (IsSettled from_str f receipt declares) (sym (clear-ledger ready (held f l)))
          (ledger-recorded from_str to_string now iso_now disk f receipt declares l e)
    by_ledger-IsSettled l (some false) receipt declares h e g =
        elim (Bool-cases (is_compression f.action)) [
          | inl c ↦ ground (arith, rw c at g)
          | inr c ↦ simp c (by_receipt-IsSettled l receipt declares h (readable l e) (simp c at g))
        ]

    -- Where the records of the attempt are printed on one line and read back, and the ledger is absent,
    -- empty, ends in a newline or cannot be read, reconciling a held fence removes it only if the
    -- attempt may be repeated, a line of the ledger behind is a record of it, or no receipt of it
    -- exists and its script declares that it is idempotent.
    pub reconcile_fence_at-IsSettled :
        (l : LedgerFile) (receipt : Receipt) (declares : Script)
        → IsEnded l
        → let after =
            (reconcile_fence_at from_str to_string now iso_now disk receipt declares
              (held f l)).1 in
          is_gone after.fence_file ≡ true → IsSettled from_str f receipt declares after.ledger_file
    unfolding reconcile_fence_at
    reconcile_fence_at-IsSettled l receipt declares h g = elim (Bool-cases f.retryable) [
      | inl r ↦ repeatable r
      | inr r ↦ simp r (
          by_ledger-IsSettled l (ledger_has_attempt from_str to_string now iso_now disk l f.id)
            receipt declares h refl (simp r at g))
    ]
