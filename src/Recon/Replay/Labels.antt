-- ===== src/Recon/Replay/Labels.antt =====
-- The harness labels of the envelopes of one capture.
use vaultr.Prelude.{
  ◌≡◌, ◌∙◌, refl, sym, ap, ◌⊎◌, inl, inr, Bool, Option, none, some, List, [], ◌∷◌, All, arith,
}
use mathlib.Core.Option.{some-injective}
use vaultr.Json.{Value, and_then, and_then-some}
use vaultr.Recon.Output.{Harness, claude, codex, Parse, extract_response_output}
use vaultr.Recon.Replay.{
  ReconState, HarnessState, unknown, provisional_codex, explicit, next_harness, label_of,
  history_of, key_of, is_input, replay, apply, apply_all, value,
}

-- An envelope without a label, or with the one that the state has.
abbrev pub IsLabelled : HarnessState → Value → Type 0
IsLabelled state env =
    (label_of env ≡ none) ⊎ ((h : Harness) × (label_of env ≡ some h) × (state ≡ explicit h))

next_harness-explicit :
    (h : Harness) (label : Option Harness) (k : Bool) (state : HarnessState)
    → next_harness (explicit h) label k ≡ some state
    → state ≡ explicit h
unfolding next_harness
next_harness-explicit claude none k state e = ground (arith, e)
next_harness-explicit codex none k state e = ground (arith, e)
next_harness-explicit claude (some claude) k state e = ground (arith, e)
next_harness-explicit claude (some codex) k state e = ground (arith, e)
next_harness-explicit codex (some claude) k state e = ground (arith, e)
next_harness-explicit codex (some codex) k state e = ground (arith, e)

-- The label is kept.
next_harness-label :
    (before : HarnessState) (h : Harness) (k : Bool) (state : HarnessState)
    → next_harness before (some h) k ≡ some state
    → state ≡ explicit h
unfolding next_harness
next_harness-label unknown h k state e = ground (arith, e)
next_harness-label provisional_codex h k state e = ground (arith, e)
next_harness-label (explicit claude) claude k state e = ground (arith, e)
next_harness-label (explicit claude) codex k state e = ground (arith, e)
next_harness-label (explicit codex) claude k state e = ground (arith, e)
next_harness-label (explicit codex) codex k state e = ground (arith, e)

module _ (from_str : Parse) where
  -- An application that succeeds has a next harness.
  apply-harness :
      (env : Value) (s s1 : ReconState)
      → apply from_str env s ≡ some s1
      → next_harness s.harness (label_of env) (is_input (key_of (history_of env))) ≡ some s1.harness
  unfolding apply
  apply-harness env s s1 e =
      let (harness, a, more) =
        and_then-some _ (next_harness s.harness (label_of env) (is_input (key_of (history_of env))))
          s1 e in
      let (replayed, b, last) =
        and_then-some _ (replay (history_of env) (s.msgs, s.hash_dict)) s1 more in
      let (out, c, d) =
        and_then-some _ (extract_response_output from_str env (value harness)) s1 last in
      a ∙ ap (and_then (λ (r : ReconState). some r.harness)) d

  all-explicit :
      (h : Harness) (envs : List Value) (s s1 : ReconState)
      → apply_all from_str envs s ≡ some s1
      → s.harness ≡ explicit h
      → s1.harness ≡ explicit h
  unfolding apply_all
  all-explicit h [] s s1 e l = ap (λ (r : ReconState). r.harness) (sym (some-injective s s1 e)) ∙ l
  all-explicit h (env ∷ envs) s s1 e l =
      let (s2, a, more) = and_then-some (apply_all from_str envs) (apply from_str env s) s1 e in
      all-explicit h envs s2 s1 more (
        next_harness-explicit h (label_of env) (is_input (key_of (history_of env))) s2.harness
          (rw l at (apply-harness env s s2 a)))

  -- When a capture is replayed without an error, each of its envelopes is without a harness label, or
  -- has the label that the final state has.
  pub apply_all-IsLabelled :
      (envs : List Value) (s s1 : ReconState)
      → apply_all from_str envs s ≡ some s1
      → All (IsLabelled s1.harness) envs
  unfolding apply_all
  apply_all-IsLabelled [] s s1 e = tt
  apply_all-IsLabelled (env ∷ envs) s s1 e =
      let (s2, a, more) = and_then-some (apply_all from_str envs) (apply from_str env s) s1 e in
      (
        label_case (label_of env) refl s2 more (apply-harness env s s2 a),
        apply_all-IsLabelled envs s2 s1 more,
      )
    where
      label_case :
          (label : Option Harness)
          → label_of env ≡ label
          → (s2 : ReconState) → apply_all from_str envs s2 ≡ some s1
          → next_harness s.harness (label_of env) (is_input (key_of (history_of env)))
            ≡ some s2.harness
          → IsLabelled s1.harness env
      label_case none l s2 more n = inl l
      label_case (some h) l s2 more n = inr (
        h,
        l,
        all-explicit h envs s2 s1 more (
            next_harness-label s.harness h (is_input (key_of (history_of env))) s2.harness
              (rw l at n)),
      )
