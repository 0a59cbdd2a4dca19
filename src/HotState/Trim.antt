-- ===== src/HotState/Trim.antt =====
-- `str::trim`, as crates/rtt-core/src/hot_state.rs calls it: the length of a text is fuel enough.
use rtt.Prelude.{
  ℕ, zero, suc, ◌+◌, ◌≤◌, ◌<◌, ◌≡◌, none, some, List, [], ◌∷◌, All, length, arith, Option-cases,
  inl, inr,
}
use rtt.Order.{Text}
use rtt.HotState.{strip_prefix, strip_any, strip_all, white_space}

strip_prefix-length :
    (p s rest : Text) → strip_prefix p s ≡ some rest → length rest + length p ≡ length s
strip_prefix-length [] s rest h = ground arith
strip_prefix-length (c ∷ p) [] rest h = ground arith
strip_prefix-length (c ∷ p) (d ∷ s) rest h = ground (arith, strip_prefix-length p s rest)

strip_any-shorter :
    (ps : List Text) (s rest : Text)
    → All (λ p. 0 < length p) ps
    → strip_any ps s ≡ some rest
    → length rest < length s
strip_any-shorter [] s rest h e = ground arith
strip_any-shorter (p ∷ ps) s rest h e = elim (Option-cases (strip_prefix p s)) [
  | inl d ↦ strip_any-shorter ps s rest h.1 (ground (arith, d, e))
  | inr (r, d) ↦ ground (arith, strip_prefix-length p s r d, d, e)
]

-- With fuel for the length of the text nothing is left to strip.
strip_all-done :
    (fuel : ℕ) (ps : List Text) (s : Text)
    → All (λ p. 0 < length p) ps
    → length s ≤ fuel
    → strip_any ps (strip_all fuel ps s) ≡ none
strip_all-done zero ps s h k = elim (Option-cases (strip_any ps s)) [
  | inl e ↦ e
  | inr (r, e) ↦ ground (arith, strip_any-shorter ps s r h e)
]
strip_all-done (suc fuel) ps s h k = elim (Option-cases (strip_any ps s)) [
  | inl e ↦ ground (arith, e)
  | inr (r, e) ↦ ground (arith, e, strip_any-shorter ps s r h e, strip_all-done fuel ps r h)
]

-- A text that is trimmed in front starts with no white space.
trimmed_front : (s : Text) → strip_any white_space (strip_all (length s) white_space s) ≡ none
trimmed_front s = strip_all-done (length s) white_space s (ground arith) (omega arith)
