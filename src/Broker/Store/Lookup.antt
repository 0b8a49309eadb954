-- ===== src/Broker/Store/Lookup.antt =====
-- What `size_of` answers, and what the sealed-key rows of a bucket look like.
use vaultr.Prelude.{
  ℕ, ◌≡◌, refl, inl, inr, true, false, Option, none, some, List, [], ◌∷◌, All, Bool-cases,
}
use vaultr.Text.{Text, text_eq, text_eq_iff}
use vaultr.Broker.Result.{ok}
use vaultr.Broker.Store.{Aws, Object, list_args, read_output, find_key, aws, size_of}
use vaultr.Broker.Store.Rows.{IsPlain}
use vaultr.Broker.Store.Printed.{Prints, parse-Prints}

-- The size of the first object of exactly this key.
pub data FirstWith (key : Text) : List Object → Option ℕ → Type 0 where
  nowhere : FirstWith key [] none
  here : (o : Object) (rest : List Object) → o.key ≡ key → FirstWith key (o ∷ rest) (some o.size)
  later :
      (o : Object) {rest : List Object} {n : Option ℕ}
      → ¬ (o.key ≡ key)
      → FirstWith key rest n
      → FirstWith key (o ∷ rest) n

pub find_key-FirstWith :
    (key : Text) (objects : List Object) → FirstWith key objects (find_key key objects)
unfolding find_key
find_key-FirstWith key [] = nowhere
find_key-FirstWith key (o ∷ rest) = elim (Bool-cases (text_eq o.key key)) [
  | inl same ↦ rw same (here o rest ((text_eq_iff o.key key).0 same))
  | inr other ↦
      rw other
        (later o (λ e. clash other ((text_eq_iff o.key key).1 e)) (find_key-FirstWith key rest))
]
  where
    clash : text_eq o.key key ≡ false → text_eq o.key key ≡ true → ⊥
    clash p q = cc

-- Where the command prints the objects under a prefix (their rows, of white-space-free keys that may
-- go on behind the prefix, or the word None for no object), `size_of` answers with the size of the
-- first one of exactly this key, and with none if there is none.
pub size_of-exact :
    (a : Aws) (bucket key : Text) (w : a.World) (s : Text) (objects : List Object)
    → (a.exec w (list_args bucket key) []).0 ≡ some (record { success = true; stdout = some s })
    → Prints s objects
    → All IsPlain objects
    → (n : Option ℕ) × ((size_of a bucket key w).0 ≡ ok n) × FirstWith key objects n
unfolding size_of aws read_output
size_of-exact a bucket key w s objects e printed plain = (
  find_key key objects,
  rw (e, parse-Prints s objects printed plain) refl,
  find_key-FirstWith key objects,
)
