-- ===== src/Broker/Tenant/Label.antt =====
-- Tenant names are labels: never empty, lower case, of the characters [a-z0-9_-].
use vaultr.Prelude.{
  ℕ, ◌≡◌, refl, ap, ◌∙◌, inl, inr, Bool, true, false, not, ◌||◌, some, [], ◌∷◌, ◌++◌, map, arith,
  ◌==◌, between, filter, filter-all, all, is_empty, ◌⊎◌,
}
use mathlib.Core.List.{append-nil}
use vaultr.Text.{Text, trim_matches, trim_end, to_ascii_lowercase, split, lacks}
use vaultr.Text.Split.{split-append, split-of_lacks}
use vaultr.Text.Trim.{trim_matches-append, trim_end-cons}
use vaultr.Broker.Seal.{is_label_char}
use vaultr.Broker.Tenant.{Tenant, from_label_source, from_node_name, from_pod_name, first_piece}

-- [a-z0-9_-]
unfoldable pub is_small_label_char : ℕ → Bool
is_small_label_char c = between 48 57 c || between 97 122 c || c == b'-' || c == b'_'

pub record IsLabel (t : Tenant) : Type 0 where
  pub nonempty : is_empty t.name ≡ false
  pub small : all is_small_label_char t.name ≡ true

lower_small :
    (c : ℕ)
    → is_label_char (to_ascii_lowercase c) ≡ true
    → is_small_label_char (to_ascii_lowercase c) ≡ true
unfolding is_label_char is_small_label_char to_ascii_lowercase
lower_small c h = ground arith

small_lower : (c : ℕ) → is_small_label_char c ≡ true → to_ascii_lowercase c ≡ c
unfolding is_small_label_char to_ascii_lowercase
small_lower c h = ground arith

small_label : (c : ℕ) → is_small_label_char c ≡ true → is_label_char c ≡ true
unfolding is_small_label_char is_label_char
small_label c h = ground arith

all-filter-lower :
    (s : Text) → all is_small_label_char (filter is_label_char (map to_ascii_lowercase s)) ≡ true
all-filter-lower [] = refl
all-filter-lower (c ∷ s) = ground (arith, lower_small c, all-filter-lower s)

map-lower : (s : Text) → all is_small_label_char s ≡ true → map to_ascii_lowercase s ≡ s
map-lower [] h = refl
map-lower (c ∷ s) h = ground (arith, small_lower c, map-lower s)

all-label : (s : Text) → all is_small_label_char s ≡ true → all is_label_char s ≡ true
all-label [] h = refl
all-label (c ∷ s) h = ground (arith, small_label c, all-label s)

from_label_source-IsLabel : (s : Text) (t : Tenant) → from_label_source s ≡ some t → IsLabel t
unfolding from_label_source
from_label_source-IsLabel s t h = ground (arith, all-filter-lower s)

pub from_node_name-IsLabel : (s : Text) (t : Tenant) → from_node_name s ≡ some t → IsLabel t
unfolding from_node_name
from_node_name-IsLabel s t h = from_label_source-IsLabel _ t h

pub from_pod_name-IsLabel : (s : Text) (t : Tenant) → from_pod_name s ≡ some t → IsLabel t
unfolding from_pod_name
from_pod_name-IsLabel s t h = from_label_source-IsLabel _ t h

-- A pod name that is a label names the tenant as it is spelled.
pub from_pod_name-of_label : (t : Tenant) → IsLabel t → from_pod_name t.name ≡ some t
unfolding from_pod_name from_label_source
from_pod_name-of_label t l = rw (
  map-lower t.name l.small,
  filter-all is_label_char t.name (all-label t.name l.small),
  l.nonempty,
)

no_dot : (c : ℕ) → is_small_label_char c ≡ true → not (c == b'.') ≡ true
unfolding is_small_label_char
no_dot c h = ground arith

label-lacks_dot : (s : Text) → all is_small_label_char s ≡ true → lacks b'.' s ≡ true
label-lacks_dot [] h = refl
label-lacks_dot (c ∷ s) h = ground (arith, no_dot c, label-lacks_dot s)

-- The first piece of a label, whether a trimmed domain follows it or nothing does.
first_piece-label :
    (w s r : Text)
    → lacks b'.' w ≡ true
    → (r ≡ []) ⊎ (r ≡ b'.' ∷ s)
    → first_piece (split b'.' (w ++ r)) ≡ w
first_piece-label w s r h (inl e) = rw (e, append-nil w, split-of_lacks b'.' w h)
first_piece-label w s r h (inr e) = rw (e, split-append b'.' w s h)

first_piece-trim :
    (w s : Text)
    → is_empty w ≡ false
    → lacks b'.' w ≡ true
    → first_piece (split b'.' (trim_matches (λ c. c == b'.') (w ++ (b'.' ∷ s)))) ≡ w
first_piece-trim [] s n h = cc
first_piece-trim (c ∷ w) s n h =
    ap (λ t. first_piece (split b'.' t)) (trim_matches-append (λ d. d == b'.') c w (b'.' ∷ s) h)
    ∙ first_piece-label (c ∷ w) (trim_end (λ d. d == b'.') s) (trim_end (λ d. d == b'.') (b'.' ∷ s))
        h (trim_end-cons (λ d. d == b'.') b'.' s)

-- A fully qualified name of a labelled node, with any domain behind the label, names the same
-- tenant as a pod of that name.
pub from_node_name-domain :
    (t : Tenant) (domain : Text)
    → IsLabel t
    → from_node_name (t.name ++ (b'.' ∷ domain)) ≡ from_pod_name t.name
unfolding from_node_name from_pod_name
from_node_name-domain t domain l =
    ap from_label_source
      (first_piece-trim t.name domain l.nonempty (label-lacks_dot t.name l.small))
