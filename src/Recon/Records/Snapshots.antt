-- ===== src/Recon/Records/Snapshots.antt =====
-- A snapshot taken before or after the sealed file takes in a detached generation.
use vaultr.Prelude.{
  ℕ, ◌≡◌, ◌∙◌, ◌<◌, ◌≤◌, ◌+◌, refl, sym, ap, true, false, Option, none, some, List, [], ◌∷◌, ◌++◌,
  arith, length, drop, ltb,
}
use vaultr.Text.{Text, text_eq_refl}
use vaultr.Json.{Value, and_then}
use vaultr.Recon.Records.{
  sealed, Stream, run_segment, Detached, Snapshot, visit_detached, visit_raw, decoded_suffix_digest,
  visit_snapshot, visit_sealed,
}
use vaultr.Recon.Records.Whole.{IsWhole, run_segment-++}

length-++ : (xs ys : List ℕ) → length (xs ++ ys) ≡ length xs + length ys
length-++ [] ys = omega arith
length-++ (x ∷ xs) ys = omega (arith, length-++ xs ys)

drop-++ : (xs ys : List ℕ) → drop (length xs) (xs ++ ys) ≡ ys
drop-++ [] ys = refl
drop-++ (x ∷ xs) ys = drop-++ xs ys

ltb-true : (m n : ℕ) → m < n → ltb m n ≡ true
ltb-true m n h = ground (arith, h)

ltb-false : (m n : ℕ) → n ≤ m → ltb m n ≡ false
ltb-false m n h = ground (arith, h)

abbrev pub detached_of : (List ℕ → Text) → List ℕ → List ℕ → Detached
detached_of sha256 base bytes = record {
  segment = bytes;
  base_len = length base;
  digest = sha256 bytes;
}

abbrev pub snapshot_of : List ℕ → Option Detached → Option (List ℕ) → Snapshot
snapshot_of file waiting raw_file = record {
  sealed_file = some file;
  detached = waiting;
  raw = raw_file;
}

module _ {ℓ} {S : Type ℓ} (decode : List ℕ → Option (List ℕ)) (sha256 : List ℕ → Text)
    (stream : Stream) (visit : Value → S → Option S) where
  published-detached :
      (base frame segment : List ℕ) (s : S)
      → 0 < length frame
      → decode frame ≡ some segment
      → visit_detached decode sha256 stream visit
          (some (base ++ frame))
          record { segment = segment; base_len = length base; digest = sha256 segment }
          s
        ≡ some s
  unfolding visit_detached decoded_suffix_digest
  published-detached base frame segment s h d =
      rw
        (
          ltb-false (length (base ++ frame)) (length base) (omega (arith, length-++ base frame)),
          ltb-true (length base) (length (base ++ frame)) (omega (arith, h, length-++ base frame)),
          drop-++ base frame,
          d,
          text_eq_refl (sha256 segment),
        )
        refl

  pending-detached :
      (base : List ℕ) (d : Detached) (s : S)
      → d.base_len ≡ length base
      → visit_detached decode sha256 stream visit (some base) d s
        ≡ run_segment stream visit sealed d.segment s
  unfolding visit_detached
  pending-detached base d s e =
      rw
        (
          ltb-false (length base) d.base_len (omega (arith, e)),
          ltb-false d.base_len (length base) (omega (arith, e)),
        )
        refl

  sealed-published :
      (base frame before segment : List ℕ) (s : S)
      → IsWhole before
      → decode base ≡ some before
      → decode (base ++ frame) ≡ some (before ++ segment)
      → visit_sealed decode sha256 stream visit (some (base ++ frame)) s
        ≡ and_then
            (run_segment stream visit sealed segment)
            (visit_sealed decode sha256 stream visit (some base) s)
  sealed-published base frame before segment s w b f =
      ap (and_then (λ (bytes : List ℕ). run_segment stream visit sealed bytes s)) f
      ∙ run_segment-++ stream visit sealed before segment s w
      ∙ ap
          (λ (o : Option (List ℕ)).
            and_then (run_segment stream visit sealed segment)
              (and_then (λ (bytes : List ℕ). run_segment stream visit sealed bytes s) o))
          (sym b)

  regroup :
      (f g : S → Option S) (rest : S → Option S)
      → ((s : S) → f s ≡ g s)
      → (o : Option S) → and_then (λ s1. and_then rest (f s1)) o ≡ and_then rest (and_then g o)
  regroup f g rest h none = refl
  regroup f g rest h (some s) = ap (and_then rest) (h s)

  kept : (f : S → Option S) → ((s : S) → f s ≡ some s) → (o : Option S) → and_then f o ≡ o
  kept f h none = refl
  kept f h (some s) = h s

  -- A detached generation is visited once, whether the snapshot was taken before its frame was appended
  -- to the sealed file, between that and the removal of the generation, or after it: the three have the
  -- same outcome, if the sealed file held whole records, the frame is not empty, and the decoder gives
  -- the frames of a file one behind another.
  pub visit_snapshot-published :
      (base frame before segment : List ℕ) (raw_file : Option (List ℕ)) (s : S)
      → IsWhole before
      → 0 < length frame
      → decode base ≡ some before
      → decode frame ≡ some segment
      → decode (base ++ frame) ≡ some (before ++ segment)
      → let visited = (λ (file : List ℕ) (waiting : Option Detached).
        visit_snapshot decode sha256 stream visit (snapshot_of file waiting raw_file) s) in
        let d = detached_of sha256 base segment in
        (visited (base ++ frame) (some d) ≡ visited base (some d))
        × (visited (base ++ frame) none ≡ visited base (some d))
  unfolding visit_snapshot
  visit_snapshot-published base frame before segment raw_file s w l b z f = (
    behind (visit_detached decode sha256 stream visit (some (base ++ frame)) d)
        (λ s1. published-detached base frame segment s1 l z),
    behind some (λ s1. refl),
  )
    where
      d : Detached
      d = detached_of sha256 base segment

      behind :
          (f1 : S → Option S)
          → ((s1 : S) → f1 s1 ≡ some s1)
          → and_then
              (λ s1. and_then (visit_raw decode sha256 stream visit raw_file) (f1 s1))
              (visit_sealed decode sha256 stream visit (some (base ++ frame)) s)
            ≡ and_then
                (λ s1. and_then (visit_raw decode sha256 stream visit raw_file) (
                  visit_detached decode sha256 stream visit
                    (some base)
                    (detached_of sha256 base segment)
                    s1))
                (visit_sealed decode sha256 stream visit (some base) s)
      behind f1 h =
          regroup f1 some (visit_raw decode sha256 stream visit raw_file) h
            (visit_sealed decode sha256 stream visit (some (base ++ frame)) s)
          ∙ ap (and_then (visit_raw decode sha256 stream visit raw_file)) (
              kept some (λ s1. refl)
                (visit_sealed decode sha256 stream visit (some (base ++ frame)) s)
              ∙ sealed-published base frame before segment s w b f)
          ∙ sym (
              regroup
                (visit_detached decode sha256 stream visit (some base)
                  (detached_of sha256 base segment))
                (run_segment stream visit sealed segment)
                (visit_raw decode sha256 stream visit raw_file)
                (λ s1. pending-detached base (detached_of sha256 base segment) s1 refl)
                (visit_sealed decode sha256 stream visit (some base) s))
