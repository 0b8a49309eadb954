-- ===== src/Recon/Replay/Lineage.antt =====
-- Captures whose deltas were each encoded against the body before.
use vaultr.Prelude.{
  ℕ, suc, ◌≤◌, ◌≡◌, refl, sym, ap, subst, ◌∙◌, ◌⊎◌, inl, inr, Bool, arith, Option, some, List, [],
  ◌∷◌, ◌++◌, All, length, take, drop,
}
use vaultr.Prelude.Map
use vaultr.Text.{Text, chars, text_eq, text_key}
use vaultr.Json.{Value, entries, of_entries, get, str_at, and_then}
use vaultr.Recon.Delta.{
  State, apply_delta, common_prefix, history_in, history_delta, or_else, encode_delta,
}
use vaultr.Recon.Delta.Prefix.{Agree, Agree-length, prefix-le, kept-Agree}
use vaultr.Recon.Delta.RoundTrip.{apply-history_delta}
use vaultr.Recon.Output.{Harness, claude, codex, Parse, extract_response_output}
use vaultr.Recon.Replay.{
  ReconState, new, HarnessState, unknown, explicit, value, next_harness, label_of, history_of,
  key_of, is_input, replay, stamp, apply, apply_all,
}

-- Envelopes whose bodies follow the first body and end with the last, each with the delta that the
-- encoder makes of its body against the one before.
pub data Recorded (key : Text) (big : List Text) : Value → List Value → Value → Type 0 where
  last_body : {body : Value} → Recorded key big body [] body
  next_body :
      {prior last : Value} (body env : Value) {envs : List Value}
      → history_of env ≡ get (chars "history") (encode_delta prior body key big)
      → Recorded key big body envs last
      → Recorded key big prior (env ∷ envs) last

-- The envelope is labelled, and its response can be read.
abbrev pub Readable : Parse → Harness → Value → Type 0
Readable from_str h env =
    (label_of env ≡ some h)
    × ((out : List Value) × (extract_response_output from_str env (some h) ≡ some out))

-- The reader's state behind a body.
pub record Follows (key : Text) (h : Harness) (body : Value) (s : ReconState) : Type 0 where
  pub agrees : Agree s.msgs (history_in key body)
  pub labelled : (s.harness ≡ unknown) ⊎ (s.harness ≡ explicit h)

encode_delta-history :
    (prior body : Value) (key : Text) (big : List Text)
    → let history = history_in key body in
      get (chars "history") (encode_delta prior body key big)
      ≡ some (history_delta key (common_prefix (history_in key prior) history) history)
unfolding get encode_delta entries of_entries Map.get text_eq
encode_delta-history prior body key big = refl

key-history_delta :
    (key : Text) (prefix : ℕ) (history : List Value)
    → key_of (some (history_delta key prefix history)) ≡ some key
unfolding get entries of_entries Map.get text_eq
key-history_delta key prefix history = refl

next_harness-labelled :
    (h : Harness) (state : HarnessState) (codex_key : Bool)
    → (state ≡ unknown) ⊎ (state ≡ explicit h)
    → next_harness state (some h) codex_key ≡ some (explicit h)
unfolding next_harness
next_harness-labelled h state codex_key (inl e) = rw e refl
next_harness-labelled claude state codex_key (inr e) = rw e refl
next_harness-labelled codex state codex_key (inr e) = rw e refl

-- An application whose three parts succeed.
apply-parts :
    (from_str : Parse) (env : Value) (s : ReconState) (harness : HarnessState) (replayed : State)
    (out : List Value)
    → next_harness s.harness (label_of env) (is_input (key_of (history_of env))) ≡ some harness
    → replay (history_of env) (s.msgs, s.hash_dict) ≡ some replayed
    → extract_response_output from_str env (value harness) ≡ some out
    → (s' : ReconState) × (apply from_str env s ≡ some s')
      × (s'.msgs ≡ replayed.0)
      × (s'.harness ≡ harness)
      × (s'.key ≡ or_else s.key (key_of (history_of env)))
unfolding apply
apply-parts from_str env s harness replayed out a b c = (
  record {
    msgs = replayed.0;
    hash_dict = replayed.1;
    key = or_else s.key (key_of (history_of env));
    harness = harness;
    trailing = stamp (value harness) (str_at (chars "turn_id") env) out;
    envelopes = suc s.envelopes;
  },
  rw (a, b, c) refl,
  refl,
  refl,
  refl,
)

module _ (from_str : Parse) (key : Text) (big : List Text) (h : Harness) where
  apply-Follows :
      (prior body env : Value) (s : ReconState)
      → history_of env ≡ get (chars "history") (encode_delta prior body key big)
      → Readable from_str h env
      → Follows key h prior s
      → (s' : ReconState) × (apply from_str env s ≡ some s')
        × Follows key h body s'
        × (s'.key ≡ key)
  unfolding replay apply_delta
  apply-Follows prior body env s e (l, (out, o)) f =
      let hs = history_in key body in
      let n = common_prefix (history_in key prior) hs in
      let d = e ∙ encode_delta-history prior body key big in
      let (s', a, m, t, k) =
        apply-parts from_str env s (explicit h) (take n s.msgs ++ drop n hs, s.hash_dict) out
          (ap
              (λ (x : Option Harness).
                next_harness s.harness x (is_input (key_of (history_of env))))
              l
            ∙ next_harness-labelled h s.harness _ f.labelled)
          (ap (λ (x : Option Value). replay x (s.msgs, s.hash_dict)) d
            ∙ apply-history_delta key n hs s.msgs s.hash_dict (fits n hs refl))
          (unfold value in o) in
      (
        s',
        a,
        record {
          agrees =
              subst (λ (ms : List Value). Agree ms hs) (sym m)
                (kept-Agree s.msgs (history_in key prior) hs f.agrees);
          labelled = inr t;
        },
        k
            ∙ ap (λ (x : Option Value). or_else s.key (key_of x)) d
            ∙ ap (or_else s.key) (key-history_delta key n hs),
      )
    where
      fits :
          (n : ℕ) (hs : List Value)
          → n ≡ common_prefix (history_in key prior) hs
          → n ≤ length s.msgs
      fits n hs z = omega (
        arith,
        z,
        prefix-le (history_in key prior) hs,
        Agree-length s.msgs (history_in key prior) f.agrees,
      )

  -- An envelope's application brings the reader from body to body, so it succeeds on every envelope.
  envelopes-Follows :
      (prior last : Value) (envs : List Value) (s : ReconState)
      → Recorded key big prior envs last
      → All (Readable from_str h) envs
      → Follows key h prior s
      → (s' : ReconState) × (apply_all from_str envs s ≡ some s') × Follows key h last s'
  unfolding apply_all
  envelopes-Follows prior last envs s last_body readable f = (s, refl, f)
  envelopes-Follows prior last (env ∷ envs) s (next_body body _ e more) readable f =
      let (s1, a, f1, k) = apply-Follows prior body env s e readable.0 f in
      let (s2, b, g) = envelopes-Follows body last envs s1 more readable.1 f1 in
      (s2, ap (and_then (apply_all from_str envs)) a ∙ b, g)

-- Envelopes that were recorded one after another, each with the delta of its body against the one
-- before, all with the same harness label and readable responses, are applied without an error from the
-- new state, and the history then agrees item by item with that of the last body, if the history of the
-- first was empty.
pub apply_all-Follows :
    (from_str : Parse) (key : Text) (big : List Text) (h : Harness) (first last : Value)
    (envs : List Value)
    → history_in key first ≡ []
    → Recorded key big first envs last
    → All (Readable from_str h) envs
    → (s : ReconState) × (apply_all from_str envs new ≡ some s) × Follows key h last s
apply_all-Follows from_str key big h first last envs e r readable =
    envelopes-Follows from_str key big h first last envs new r readable
      record { agrees = subst (Agree []) (sym e) tt; labelled = inl refl }
