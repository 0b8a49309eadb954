-- ===== src/Recon/Delta/Prefix.antt =====
-- Histories that agree item by item, and the prefix that a delta keeps.
use vaultr.Prelude.{
  suc, ◌≤◌, ◌≡◌, refl, ap, true, arith, inl, inr, List, [], ◌∷◌, ◌++◌, length, take, drop,
  Bool-cases,
}
use vaultr.Text.{Text}
use vaultr.Json.{Value, value_eq}
use vaultr.Recon.Delta.{common_prefix, is_one_of}

-- The same value, or one that a chain of values leads to of which each is `==` to the next.
pub data Same : Value → Value → Type 0 where
  same : {v : Value} → Same v v
  equal : {v w u : Value} → Same v w → value_eq w u ≡ true → Same v u

abbrev pub Agree : List Value → List Value → Type 0
Agree [] [] = Unit
Agree (v ∷ vs) (w ∷ ws) = Same v w × Agree vs ws
Agree _ _ = ⊥

pub Agree-refl : (vs : List Value) → Agree vs vs
Agree-refl [] = tt
Agree-refl (v ∷ vs) = (same, Agree-refl vs)

pub Agree-length : (vs ws : List Value) → Agree vs ws → length vs ≡ length ws
Agree-length [] [] h = refl
Agree-length (v ∷ vs) (w ∷ ws) h = ap suc (Agree-length vs ws h.1)
Agree-length [] (w ∷ ws) h = absurd h
Agree-length (v ∷ vs) [] h = absurd h

pub prefix-le : (ps hs : List Value) → common_prefix ps hs ≤ length ps
unfolding common_prefix
prefix-le [] hs = omega arith
prefix-le (p ∷ ps) [] = omega arith
prefix-le (p ∷ ps) (h ∷ hs) = ground (arith, prefix-le ps hs)

-- A reader whose history agrees with the encoder's last one agrees with the next one, once it has kept
-- the common prefix and taken the items behind it.
pub kept-Agree :
    (rs ps hs : List Value)
    → Agree rs ps
    → Agree (take (common_prefix ps hs) rs ++ drop (common_prefix ps hs) hs) hs
unfolding common_prefix
kept-Agree rs [] hs a = Agree-refl hs
kept-Agree rs (p ∷ ps) [] a = tt
kept-Agree [] (p ∷ ps) (h ∷ hs) a = absurd a
kept-Agree (r ∷ rs) (p ∷ ps) (h ∷ hs) a = elim (Bool-cases (value_eq p h)) [
  | inl eq ↦ rw eq (equal a.0 eq, kept-Agree rs ps hs a.1)
  | inr ne ↦ rw ne (same, Agree-refl hs)
]

pub is_one_of-append :
    (name : Text) (ps more : List Text)
    → is_one_of ps name ≡ true
    → is_one_of (ps ++ more) name ≡ true
is_one_of-append name [] more q = ground (arith, q)
is_one_of-append name (p ∷ ps) more q = ground (arith, q, is_one_of-append name ps more)
