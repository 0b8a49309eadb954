-- ===== src/Broker/Store/Printed.antt =====
-- What `--output text` prints for the two fields of the objects of a listing, and that it is read back.
use vaultr.Prelude.{◌≡◌, refl, sym, ap, ◌∙◌, ◌⊎◌, inl, inr, List, [], All}
use vaultr.Text.{Text, chars, lines, line_list, split, trim, text_eq}
use vaultr.Broker.Store.{Object, parse_listing, is_row}
use vaultr.Broker.Store.Rows.{IsPlain, print_rows, parse_listing-print_rows}

-- An output for a list of objects: their rows, or the word None if there is none.
abbrev pub Prints : Text → List Object → Type 0
Prints s objects = ((objects ≡ []) × (s ≡ chars "None\n")) ⊎ (s ≡ print_rows objects)

none_listing : parse_listing (chars "None\n") ≡ []
unfolding parse_listing is_row lines line_list split trim text_eq
none_listing = refl

pub parse-Prints :
    (s : Text) (objects : List Object)
    → Prints s objects
    → All IsPlain objects
    → parse_listing s ≡ objects
parse-Prints s objects (inl (e, n)) h = ap parse_listing n ∙ none_listing ∙ sym e
parse-Prints s objects (inr p) h = ap parse_listing p ∙ parse_listing-print_rows objects h
