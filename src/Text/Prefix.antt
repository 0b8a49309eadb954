-- ===== src/Text/Prefix.antt =====
-- Prefixes of texts.
use vaultr.Prelude.{◌≡◌, refl, some, [], ◌∷◌, ◌++◌, arith}
use vaultr.Text.{Text, strip_prefix}

pub strip_prefix-append : (p s : Text) → strip_prefix p (p ++ s) ≡ some s
unfolding strip_prefix
strip_prefix-append [] s = refl
strip_prefix-append (c ∷ p) s = ground (arith, strip_prefix-append p s)

pub append_of_strip_prefix : (p s r : Text) → strip_prefix p s ≡ some r → s ≡ p ++ r
unfolding strip_prefix
append_of_strip_prefix [] s r h = ground arith
append_of_strip_prefix (c ∷ p) [] r h = ground arith
append_of_strip_prefix (c ∷ p) (d ∷ s) r h = ground (arith, append_of_strip_prefix p s r)
