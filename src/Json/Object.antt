-- ===== src/Json/Object.antt =====
-- The entries of an object: insertion and removal, and what they leave under each key.
use vaultr.Prelude.{
  ◌≡◌, refl, ap, ◌∙◌, Bool, true, false, arith, inl, inr, Option, none, some, List, [], ◌∷◌,
  Bool-cases, if◌then◌else◌,
}
use vaultr.Prelude.Map
use vaultr.Text.{Text, text_eq, text_eq_iff, text_key}
use vaultr.Json.{Value, Entries, items, of_items, entries, of_entries}

-- Map::insert: a new key goes to the end.
unfoldable pub insert : Text → Value → Entries → Entries
insert k v [] = (k, v) ∷ []
insert k v ((j, w) ∷ m) =
    let rest = insert k v m in if text_eq j k then (j, v) ∷ m else (j, w) ∷ rest

-- The last entry, then the others in their order.
abbrev under : Text × Value → Entries → Entries
under e [] = e ∷ []
under e (f ∷ m) = f ∷ e ∷ m

last_first : Text × Value → Entries → Entries
last_first e [] = e ∷ []
last_first e (f ∷ m) = under e (last_first f m)

unfoldable pub move_last : Entries → Entries
unfolding last_first
move_last [] = []
move_last (e ∷ m) = last_first e m

-- Map::remove, which is `swap_remove`.
unfoldable pub remove : Text → Entries → Entries
unfolding move_last
remove k [] = []
remove k ((j, w) ∷ m) = let rest = remove k m in if text_eq j k then move_last m else (j, w) ∷ rest

pub items-of_items : (vs : List Value) → items (of_items vs) ≡ vs
unfolding items of_items
items-of_items [] = refl
items-of_items (v ∷ vs) = ap (◌∷◌ v) (items-of_items vs)

pub entries-of_entries : (es : Entries) → entries (of_entries es) ≡ es
unfolding entries of_entries
entries-of_entries [] = refl
entries-of_entries ((k, v) ∷ es) = ap (◌∷◌ (k, v)) (entries-of_entries es)

-- No key stands twice.
abbrev pub Distinct : Entries → Type 0
Distinct [] = Unit
Distinct ((k, v) ∷ m) = (Map.get k m ≡ none) × Distinct m

pub get-insert :
    (k j : Text) (v : Value) (m : Entries)
    → Map.get j (insert k v m) ≡ (if text_eq k j then some v else Map.get j m)
unfolding Map.get insert
get-insert k j v [] = ground arith
get-insert k j v ((i, w) ∷ m) =
    ground (arith, get-insert k j v m, text_eq_iff i k, text_eq_iff i j, text_eq_iff k j)

pub insert-Distinct : (k : Text) (v : Value) (m : Entries) → Distinct m → Distinct (insert k v m)
unfolding insert
insert-Distinct k v [] h = (unfold Map.get in refl, tt)
insert-Distinct k v ((i, w) ∷ m) h = elim (Bool-cases (text_eq i k)) [
  | inl same ↦ rw same h
  | inr other ↦ rw other (
    get-insert k i v m ∙ ground (arith, text_eq_iff i k, text_eq_iff k i, h.0),
    insert-Distinct k v m h.1,
  )
]

get-under :
    (j k : Text) (v : Value) (m : Entries)
    → Map.get k m ≡ none
    → Map.get j (under (k, v) m) ≡ Map.get j ((k, v) ∷ m)
unfolding Map.get
get-under j k v [] h = refl
get-under j k v ((i, w) ∷ m) h = ground (arith, text_eq_iff i k, text_eq_iff i j, text_eq_iff k j)

get-behind :
    (j : Text) (e : Text × Value) (m n : Entries)
    → Map.get j m ≡ Map.get j n
    → Map.get j (e ∷ m) ≡ Map.get j (e ∷ n)
unfolding Map.get
get-behind j (k, v) m n h = ap (λ (o : Option Value). if text_eq k j then some v else o) h

get-last_first :
    (j k : Text) (v : Value) (m : Entries)
    → Distinct ((k, v) ∷ m)
    → Map.get j (last_first (k, v) m) ≡ Map.get j ((k, v) ∷ m)
unfolding last_first
get-last_first j k v [] h = refl
get-last_first j k v ((i, w) ∷ m) h =
    get-under j k v (last_first (i, w) m) (get-last_first k i w m h.1 ∙ h.0)
    ∙ get-behind j (k, v) (last_first (i, w) m) ((i, w) ∷ m) (get-last_first j i w m h.1)

get-move_last : (j : Text) (m : Entries) → Distinct m → Map.get j (move_last m) ≡ Map.get j m
unfolding move_last
get-move_last j [] h = refl
get-move_last j ((k, v) ∷ m) h = get-last_first j k v m h

without_first :
    (i k j : Text) (w : Value) (m : Entries)
    → text_eq i k ≡ true
    → Map.get i m ≡ none
    → Map.get j m ≡ (if text_eq k j then none else Map.get j ((i, w) ∷ m))
unfolding Map.get
without_first i k j w m s h = ground (arith, text_eq_iff i k, text_eq_iff i j, text_eq_iff k j)

without_later :
    (i k j : Text) (w : Value) (m n : Entries)
    → text_eq i k ≡ false
    → Map.get j n ≡ (if text_eq k j then none else Map.get j m)
    → Map.get j ((i, w) ∷ n) ≡ (if text_eq k j then none else Map.get j ((i, w) ∷ m))
unfolding Map.get
without_later i k j w m n s h = ground (arith, text_eq_iff i k, text_eq_iff i j, text_eq_iff k j)

-- Of distinct keys, a removal takes away the key and no other.
pub get-remove :
    (k j : Text) (m : Entries)
    → Distinct m
    → Map.get j (remove k m) ≡ (if text_eq k j then none else Map.get j m)
unfolding remove
get-remove k j [] h = nothing (text_eq k j)
  where
    nothing : (b : Bool) → Map.get {V = Value} j [] ≡ (if b then none else Map.get j [])
    nothing true = unfold Map.get in refl
    nothing false = refl
get-remove k j ((i, w) ∷ m) h = elim (Bool-cases (text_eq i k)) [
  | inl same ↦ rw same (get-move_last j m h.1 ∙ without_first i k j w m same h.0)
  | inr other ↦ rw other (without_later i k j w m (remove k m) other (get-remove k j m h.1))
]

under-Distinct :
    (e : Text × Value) (m : Entries) → Map.get e.0 m ≡ none → Distinct m → Distinct (under e m)
unfolding Map.get
under-Distinct e [] h d = (h, tt)
under-Distinct (k, v) ((i, w) ∷ m) h d =
    (ground (arith, text_eq_iff i k, text_eq_iff k i, d.0), (ground (arith, text_eq_iff i k), d.1))

last_first-Distinct :
    (e : Text × Value) (m : Entries) → Distinct (e ∷ m) → Distinct (last_first e m)
unfolding last_first
last_first-Distinct e [] d = d
last_first-Distinct (k, v) ((i, w) ∷ m) d =
    under-Distinct (k, v) (last_first (i, w) m) (get-last_first k i w m d.1 ∙ d.0)
      (last_first-Distinct (i, w) m d.1)

move_last-Distinct : (m : Entries) → Distinct m → Distinct (move_last m)
unfolding move_last
move_last-Distinct [] d = tt
move_last-Distinct (e ∷ m) d = last_first-Distinct e m d

none_either : (b : Bool) (o : Option Value) → o ≡ none → (if b then none else o) ≡ none
none_either true o h = refl
none_either false o h = h

pub remove-Distinct : (k : Text) (m : Entries) → Distinct m → Distinct (remove k m)
unfolding remove
remove-Distinct k [] d = tt
remove-Distinct k ((i, w) ∷ m) d = elim (Bool-cases (text_eq i k)) [
  | inl same ↦ rw same (move_last-Distinct m d.1)
  | inr other ↦
      rw other (
        get-remove k i m d.1 ∙ none_either (text_eq k i) (Map.get i m) d.0,
        remove-Distinct k m d.1,
      )
]
