-- ===== src/Recon/Records.antt =====
-- `run_segment` and `visit_snapshot` of crates/vaultr/src/recon.rs: the records of a capture's
-- generations. The JSON stream of serde_json, the zstd decoder and the SHA-256 digest are parameters, and
-- so is the visitor, as a step on a state that may fail.
pub mod Whole
pub mod Fragment
pub mod Snapshots
use vaultr.Prelude.{
  ℕ, ◌==◌, ◌||◌, ◌&&◌, Bool, true, false, not, Option, none, some, List, [], ◌∷◌, ◌++◌, any, ltb,
  length, drop, if◌then◌else◌,
}
use mathlib.Core.List.{reverse}
use vaultr.Text.{Text, text_eq}
use vaultr.Json.{Value, and_then}

-- u8::is_ascii_whitespace
unfoldable pub is_ascii_whitespace : ℕ → Bool
is_ascii_whitespace b = b == 9 || b == 10 || b == 12 || b == 13 || b == 32

-- The bytes up to a newline, and whether the newline is there.
abbrev pub PhysicalRecord : Type 0
PhysicalRecord = List ℕ × Bool

abbrev pub led_by : ℕ → List PhysicalRecord → List PhysicalRecord
led_by b [] = (b ∷ [], false) ∷ []
led_by b ((content, terminated) ∷ more) = (b ∷ content, terminated) ∷ more

-- The calls of read_until(b'\n').
unfoldable pub records : List ℕ → List PhysicalRecord
records [] = []
records (b ∷ bs) = let rest = records bs in if b == 10 then ([], true) ∷ rest else led_by b rest

unfoldable pub skip_whitespace : List ℕ → List ℕ
skip_whitespace [] = []
skip_whitespace (b ∷ bs) =
    let rest = skip_whitespace bs in if is_ascii_whitespace b then rest else b ∷ bs

-- content[start..stop], empty for a record of whitespace only.
unfoldable pub trim_record : List ℕ → List ℕ
unfolding skip_whitespace
trim_record content = reverse (skip_whitespace (reverse (skip_whitespace content)))

-- crate::recon::Segment
pub data Segment : Type 0 where
  sealed live_raw : Segment

abbrev pub is_live_raw : Segment → Bool
is_live_raw sealed = false
is_live_raw live_raw = true

-- The values of a stream, each with the byte offset behind it, and whether an error ends the stream.
abbrev pub Stream : Type 0
Stream = List ℕ → List (Value × ℕ) × Bool

unfoldable pub has_residue : List ℕ → Bool
has_residue rest = any (λ b. not (is_ascii_whitespace b)) rest

module _ {ℓ} {S : Type ℓ} (stream : Stream) (visit : Value → S → Option S) where
  -- What an error of the stream does with the bytes behind the last value.
  unfoldable pub on_error : Segment → Bool → List ℕ → S → Option S
  on_error segment terminated rest s =
      if not (has_residue rest)
      then some s
      else if not terminated && is_live_raw segment
      then some s
      else none

  unfoldable pub run_values : Segment → Bool → List ℕ → ℕ → List (Value × ℕ) → Bool → S → Option S
  run_values segment terminated trimmed consumed [] false s = some s
  run_values segment terminated trimmed consumed [] true s =
      on_error segment terminated (drop consumed trimmed) s
  run_values segment terminated trimmed consumed ((v, end) ∷ values) failed s =
      and_then (run_values segment terminated trimmed end values failed) (visit v s)

  unfoldable pub run_trimmed : Segment → Bool → List ℕ → S → Option S
  run_trimmed segment terminated [] s = some s
  run_trimmed segment terminated (b ∷ bs) s =
      let decoded = stream (b ∷ bs) in
      run_values segment terminated (b ∷ bs) 0 decoded.0 decoded.1 s

  unfoldable pub run_record : Segment → PhysicalRecord → S → Option S
  run_record segment (content, terminated) s =
      run_trimmed segment terminated (trim_record content) s

  unfoldable pub run_records : Segment → List PhysicalRecord → S → Option S
  run_records segment [] s = some s
  run_records segment (r ∷ rs) s = and_then (run_records segment rs) (run_record segment r s)

  unfoldable pub run_segment : Segment → List ℕ → S → Option S
  run_segment segment bytes s = run_records segment (records bytes) s

pub record Detached : Type 0 where
  pub segment : List ℕ
  pub base_len : ℕ
  pub digest : Text

-- The retained generations, by their bytes.
pub record Snapshot : Type 0 where
  pub sealed_file : Option (List ℕ)
  pub detached : Option Detached
  pub raw : Option (List ℕ)

module _ {ℓ} {S : Type ℓ} (decode : List ℕ → Option (List ℕ)) (sha256 : List ℕ → Text)
    (stream : Stream) (visit : Value → S → Option S) where
  abbrev pub visit_sealed : Option (List ℕ) → S → Option S
  visit_sealed none s = some s
  visit_sealed (some file) s =
      and_then (λ bytes. run_segment stream visit sealed bytes s) (decode file)

  -- The digest of what a sealed file decodes to behind an offset.
  unfoldable pub decoded_suffix_digest : List ℕ → ℕ → Option Text
  decoded_suffix_digest file offset =
      if ltb (length file) offset
      then none
      else and_then (λ bytes. some (sha256 bytes)) (decode (drop offset file))

  abbrev pub checked : Text → S → Text → Option S
  checked expected s digest = if text_eq digest expected then some s else none

  -- A detached generation is visited, unless the sealed file already holds it.
  unfoldable pub visit_detached : Option (List ℕ) → Detached → S → Option S
  visit_detached none d s =
      if ltb 0 d.base_len then none else run_segment stream visit sealed d.segment s
  visit_detached (some file) d s =
      if ltb (length file) d.base_len
      then none
      else if ltb d.base_len (length file)
      then and_then (checked d.digest s) (decoded_suffix_digest file d.base_len)
      else run_segment stream visit sealed d.segment s

  abbrev pub visit_optional : Option (List ℕ) → Option Detached → S → Option S
  visit_optional file none s = some s
  visit_optional file (some d) s = visit_detached file d s

  abbrev pub visit_raw : Option (List ℕ) → S → Option S
  visit_raw none s = some s
  visit_raw (some bytes) s = run_segment stream visit live_raw bytes s

  unfoldable pub visit_snapshot : Snapshot → S → Option S
  visit_snapshot snapshot s =
      and_then
        (λ s1.
          and_then (visit_raw snapshot.raw)
            (visit_optional snapshot.sealed_file snapshot.detached s1))
        (visit_sealed snapshot.sealed_file s)
