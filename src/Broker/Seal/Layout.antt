-- ===== src/Broker/Seal/Layout.antt =====
-- The keys that `validate` accepts, described without splitting them.
use vaultr.Prelude.{
  ℕ, ◌≡◌, ◌↔◌, refl, sym, ap, ◌∙◌, true, false, List, [], ◌∷◌, ◌++◌, arith, length, is_empty, all,
  any, All,
}
use vaultr.Text.{Text, chars, text_eq, text_eq_iff, bytes, utf8, split, join, lacks, is_ascii_digit}
use vaultr.Text.Split.{split-append, split-of_lacks, join-split, split-lacks}
use vaultr.Broker.Result.{ok}
use vaultr.Broker.Seal.{
  KeyPolicy, is_label_char, is_date_segment, is_session_id, is_seal_file, validate, validate_parts,
}

-- sessions/<year>/<month>/<day>/<id>/<file>
abbrev pub seal_key : Text → Text → Text → Text → Text → Text
seal_key year month day id file =
    chars "sessions"
    ++ (b'/' ∷ (year ++ (b'/' ∷ (month ++ (b'/' ∷ (day ++ (b'/' ∷ (id ++ (b'/' ∷ file)))))))))

-- `width` decimal digits and nothing else.
pub record IsDigits (width : ℕ) (s : Text) : Type 0 where
  pub width_eq : length s ≡ width
  pub digits : all is_ascii_digit s ≡ true

pub record IsSealKey (p : KeyPolicy) (key : Text) : Type 0 where
  pub year : Text
  pub month : Text
  pub day : Text
  pub id : Text
  pub file : Text
  pub spelled : key ≡ seal_key year month day id file
  pub year_digits : IsDigits 4 year
  pub month_digits : IsDigits 2 month
  pub day_digits : IsDigits 2 day
  pub id_chars : (is_empty id ≡ false) × (all is_label_char id ≡ true)
  pub file_listed :
      (any (λ allowed. text_eq allowed file) p.seal_files ≡ true) × (lacks b'/' file ≡ true)

-- For digits the UTF-8 bytes are the characters.
bytes-digits : (s : Text) → all is_ascii_digit s ≡ true → bytes s ≡ s
unfolding bytes
bytes-digits [] h = refl
bytes-digits (c ∷ s) h = ground (arith, bytes-digits s)

utf8-digits :
    (c : ℕ) (rest : List ℕ)
    → all is_ascii_digit (utf8 c ++ rest) ≡ true
    → (is_ascii_digit c ≡ true) × (all is_ascii_digit rest ≡ true)
unfolding utf8
utf8-digits c rest h = ground arith

digits-bytes : (s : Text) → all is_ascii_digit (bytes s) ≡ true → all is_ascii_digit s ≡ true
unfolding bytes
digits-bytes [] h = refl
digits-bytes (c ∷ s) h = let (a, b) = utf8-digits c (bytes s) h in ground (arith, digits-bytes s b)

date_segment_iff : (s : Text) (w : ℕ) → (is_date_segment s w ≡ true) ↔ IsDigits w s
unfolding is_date_segment
date_segment_iff s w = (
  (λ h.
      let d = digits-bytes s (ground arith) in
      record { width_eq = ground (arith, bytes-digits s d); digits = d }),
  λ d. ground (arith, bytes-digits s d.digits, d.width_eq),
)

lacks-digits : (s : Text) → all is_ascii_digit s ≡ true → lacks b'/' s ≡ true
lacks-digits [] h = refl
lacks-digits (c ∷ s) h = ground (arith, lacks-digits s)

lacks-label : (s : Text) → all is_label_char s ≡ true → lacks b'/' s ≡ true
unfolding is_label_char
lacks-label [] h = refl
lacks-label (c ∷ s) h = ground (arith, lacks-label s)

-- How a key of the layout splits.
split-seal_key :
    (year month day id file : Text)
    → lacks b'/' year ≡ true
    → lacks b'/' month ≡ true
    → lacks b'/' day ≡ true
    → lacks b'/' id ≡ true
    → lacks b'/' file ≡ true
    → split b'/' (seal_key year month day id file)
      ≡ chars "sessions" ∷ year ∷ month ∷ day ∷ id ∷ file ∷ []
split-seal_key y m d i f hy hm hd hi hf =
    split-append b'/' (chars "sessions") _ refl
    ∙ ap (◌∷◌ (chars "sessions")) (
        split-append b'/' y _ hy
        ∙ ap (◌∷◌ y) (
            split-append b'/' m _ hm
            ∙ ap (◌∷◌ m) (
                split-append b'/' d _ hd
                ∙ ap (◌∷◌ d) (split-append b'/' i _ hi ∙ ap (◌∷◌ i) (split-of_lacks b'/' f hf)))))

parts_accepted :
    (p : KeyPolicy) (r y m d i f : Text)
    → validate_parts p (r ∷ y ∷ m ∷ d ∷ i ∷ f ∷ []) ≡ ok tt
    → (text_eq r (chars "sessions") ≡ true)
      × (is_date_segment y 4 ≡ true)
      × (is_date_segment m 2 ≡ true)
      × (is_date_segment d 2 ≡ true)
      × (is_session_id i ≡ true)
      × (is_seal_file p f ≡ true)
unfolding validate_parts
parts_accepted p r y m d i f v = ground arith

session_id_chars :
    (i : Text) → is_session_id i ≡ true → (is_empty i ≡ false) × (all is_label_char i ≡ true)
unfolding is_session_id
session_id_chars i h = ground arith

accepted-parts :
    (p : KeyPolicy) (key : Text) (ws : List Text)
    → join b'/' ws ≡ key
    → All (λ w. lacks b'/' w ≡ true) ws
    → validate_parts p ws ≡ ok tt
    → IsSealKey p key
unfolding validate_parts is_seal_file join
accepted-parts p key (r ∷ y ∷ m ∷ d ∷ i ∷ f ∷ []) e h v =
    let (er, ey, em, ed, ei, ef) = parts_accepted p r y m d i f v in
    record {
      year = y;
      month = m;
      day = d;
      id = i;
      file = f;
      spelled =
          sym e
          ∙ ap (λ root. root ++ (b'/' ∷ join b'/' (y ∷ m ∷ d ∷ i ∷ f ∷ [])))
              ((text_eq_iff r _).0 er);
      year_digits = (date_segment_iff y 4).0 ey;
      month_digits = (date_segment_iff m 2).0 em;
      day_digits = (date_segment_iff d 2).0 ed;
      id_chars = session_id_chars i ei;
      file_listed = (ef, h.1.1.1.1.1.0);
    }
accepted-parts p key _ e h v = cc

split_accepted :
    (p : KeyPolicy) (key : Text) (k : IsSealKey p key) → validate_parts p (split b'/' key) ≡ ok tt
unfolding validate_parts is_session_id is_seal_file
split_accepted p key k =
    rw
      (
        k.spelled,
        split-seal_key k.year k.month k.day k.id k.file (lacks-digits k.year k.year_digits.digits)
            (lacks-digits k.month k.month_digits.digits) (lacks-digits k.day k.day_digits.digits)
            (lacks-label k.id k.id_chars.1) k.file_listed.1,
      )
      (ground (
        arith,
        text_eq_iff (chars "sessions") (chars "sessions"),
        date_segment_iff k.year 4,
        date_segment_iff k.month 2,
        date_segment_iff k.day 2,
      ))

-- `validate` accepts a key exactly when it is sessions/YYYY/MM/DD/<id>/<file> with digits for the
-- date, a non-empty id of label characters and a listed file name.
pub validate_iff : (p : KeyPolicy) (key : Text) → (validate p key ≡ ok tt) ↔ IsSealKey p key
unfolding validate
validate_iff p key = (
  (λ v.
      accepted-parts p key (split b'/' key) (join-split b'/' key) (split-lacks b'/' key)
        (ground arith)),
  λ k. ground (arith, split_accepted p key k, k.spelled),
)
