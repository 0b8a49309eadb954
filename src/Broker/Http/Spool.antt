-- ===== src/Broker/Http/Spool.antt =====
-- What a spooled body is: the chunks in order, no longer than the limit.
use vaultr.Prelude.{
  ◌≢◌, ℕ, ◌+◌, ◌%◌, ◌^◌, ◌≤◌, ◌<◌, ◌≡◌, refl, sym, ap, ◌∙◌, inl, inr, Bool, true, false, List, [],
  ◌∷◌, ◌++◌, arith, ltb, length, length-append, All, Bool-cases, if◌then◌else◌,
}
use mathlib.Core.List.{append-nil, append_assoc}
use vaultr.Text.{u64_limit}
use vaultr.Broker.Result.{Result, ok, err, spool_not_created, body_too_large, spool_not_written}
use vaultr.Broker.Http.{Frame, chunk, trailers, broken, Disk, spool_frames, spool_body}

-- The data of a body.
abbrev pub payload : List Frame → List ℕ
payload [] = []
payload (chunk c ∷ frames) = c ++ payload frames
payload (trailers ∷ frames) = payload frames
payload (broken ∷ frames) = payload frames

-- No slice in memory is longer than isize::MAX.
abbrev pub InMemory : Frame → Type 0
InMemory (chunk c) = length c < 2 ^ 63
InMemory _ = Unit

abbrev pub isize_limit : ℕ
isize_limit = 2 ^ 63

spool_chunk :
    (disk : Disk) (limit size : ℕ) (file c : List ℕ) (frames : List Frame) (n : ℕ)
    → (spool_frames disk limit size file (chunk c ∷ frames)).0 ≡ ok n
    → let size' = (size + length c) % u64_limit in
      (size' ≤ limit)
      × (spool_frames disk limit size file (chunk c ∷ frames)
          ≡ spool_frames disk limit size' (file ++ c) frames)
unfolding spool_frames
spool_chunk disk limit size file c frames n h =
    by_tests (ltb limit size') (disk.write_all size') refl h
  where
    size' : ℕ
    size' = (size + length c) % u64_limit

    rest : Result ℕ × List ℕ
    rest = spool_frames disk limit size' (file ++ c) frames

    by_tests :
        (over written : Bool)
        → ltb limit size' ≡ over
        → (if over
            then (err body_too_large, file)
            else if written
            then rest
            else (err spool_not_written, file)).0
          ≡ ok n
        → (size' ≤ limit)
          × ((if over
                then (err body_too_large, file)
                else if written
                then rest
                else (err spool_not_written, file))
              ≡ rest)
    by_tests true written o h = cc
    by_tests false false o h = cc
    by_tests false true o h = (ground arith, refl)

spool_frames_lem :
    (disk : Disk) (limit size : ℕ) (file : List ℕ) (frames : List Frame) (n : ℕ)
    → limit < isize_limit
    → size ≤ limit
    → size ≡ length file
    → All InMemory frames
    → (spool_frames disk limit size file frames).0 ≡ ok n
    → ((spool_frames disk limit size file frames).1 ≡ file ++ payload frames)
      × (n ≡ length (file ++ payload frames))
      × (n ≤ limit)
unfolding spool_frames
spool_frames_lem disk limit size file [] n b s e m h = ground (arith, append-nil file)
spool_frames_lem disk limit size file (broken ∷ frames) n b s e m h = cc
spool_frames_lem disk limit size file (trailers ∷ frames) n b s e m h =
    spool_frames_lem disk limit size file frames n b s e m.1 h
spool_frames_lem disk limit size file (chunk c ∷ frames) n b s e m h =
    let (fits, q) = spool_chunk disk limit size file c frames n h in
    let (a, l, k) =
      spool_frames_lem disk limit ((size + length c) % u64_limit) (file ++ c) frames n b fits
        (omega (arith, length-append file c, e, m.0)) m.1 (sym (ap (λ r. r.0) q) ∙ h) in
    (
      ap (λ r. r.1) q ∙ a ∙ append_assoc file c (payload frames),
      l ∙ ap length (append_assoc file c (payload frames)),
      k,
    )

-- If a body is spooled, the file holds its data, the size is that data's length, and it is within
-- the limit. (The limit and each chunk are below isize::MAX, so that the sum does not wrap.)
pub spool_body-payload :
    (disk : Disk) (limit : ℕ) (frames : List Frame) (n : ℕ)
    → limit < isize_limit
    → All InMemory frames
    → (spool_body disk limit frames).0 ≡ ok n
    → ((spool_body disk limit frames).1 ≡ payload frames)
      × (n ≡ length (payload frames))
      × (n ≤ limit)
unfolding spool_body
spool_body-payload disk limit frames n b m h = elim (Bool-cases disk.create) [
  | inl made ↦
      rw made (spool_frames_lem disk limit 0 [] frames n b (omega arith) refl m (rw made at h))
  | inr not_made ↦ absurd (never (rw not_made at h))
]
  where
    never : ◌≡◌ {A = Result ℕ} (err spool_not_created) (ok n) → ⊥
    never e = cc

-- The loop ends well on such a body.
spool_frames-total :
    (disk : Disk) (limit size : ℕ) (file : List ℕ) (frames : List Frame)
    → limit < isize_limit
    → disk.flush ≡ true
    → ((n : ℕ) → disk.write_all n ≡ true)
    → All (λ f. f ≢ broken) frames
    → size + length (payload frames) ≤ limit
    → (spool_frames disk limit size file frames).0 ≡ ok (size + length (payload frames))
unfolding spool_frames
spool_frames-total disk limit size file [] b f w u h = rw f (ap ok (omega arith))
spool_frames-total disk limit size file (broken ∷ frames) b f w u h = absurd (u.0 refl)
spool_frames-total disk limit size file (trailers ∷ frames) b f w u h =
    spool_frames-total disk limit size file frames b f w u.1 h
spool_frames-total disk limit size file (chunk c ∷ frames) b f w u h =
    let size' = (size + length c) % u64_limit in
    let fits : ltb limit size' ≡ false = ground (arith, length-append c (payload frames)) in
    rw (fits, w size')
      (spool_frames-total disk limit size' (file ++ c) frames b f w u.1
          (omega (arith, length-append c (payload frames)))
        ∙ ap ok (omega (arith, length-append c (payload frames))))

-- With a limit below isize::MAX, a body without errors that fits the limit is spooled whole, on a
-- disk that can create, write and flush the file: the size is that of its data.
pub spool_body-total :
    (disk : Disk) (limit : ℕ) (frames : List Frame)
    → limit < isize_limit
    → disk.create ≡ true
    → disk.flush ≡ true
    → ((n : ℕ) → disk.write_all n ≡ true)
    → All (λ f. f ≢ broken) frames
    → length (payload frames) ≤ limit
    → (spool_body disk limit frames).0 ≡ ok (length (payload frames))
unfolding spool_body
spool_body-total disk limit frames b c f w u h =
    rw c (spool_frames-total disk limit 0 [] frames b f w u (omega arith) ∙ ap ok (omega arith))
