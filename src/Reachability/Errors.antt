-- ===== src/Reachability/Errors.antt =====
-- internal/reachability/reachability.go: what the text of a probe's error may contain.
use vision_mcp_manager.Base.{
  ℕ, zero, suc, ◌≤◌, ◌≡◌, false, [], ◌∷◌, map, arith, ltb, if◌then◌else◌, length, length-take, take,
  All, Bool-cases, inl, inr, if-branches,
}
use vision_mcp_manager.Reachability.Text.{
  Runes, is_control, is_space, trim_left, trim_right, safe_error,
}

abbrev pub IsPlain : ℕ → Type 0
IsPlain r = is_control r ≡ false

map-IsPlain : (rs : Runes) → All IsPlain (map (λ r. if is_control r then 32 else r) rs)
map-IsPlain [] = tt
map-IsPlain (r ∷ rs) = (ground arith, map-IsPlain rs)

trim_left-IsPlain : (rs : Runes) → All IsPlain rs → All IsPlain (trim_left rs)
unfolding trim_left
trim_left-IsPlain [] h = tt
trim_left-IsPlain (r ∷ rs) h =
    if-branches (All IsPlain) (is_space r) (trim_left rs) (r ∷ rs) (λ _. trim_left-IsPlain rs h.1)
      (λ _. h)

trim_right-IsPlain : (rs : Runes) → All IsPlain rs → All IsPlain (trim_right rs)
unfolding trim_right
trim_right-IsPlain [] h = tt
trim_right-IsPlain (r ∷ rs) h = go (trim_right rs) (trim_right-IsPlain rs h.1)
  where
    go :
        (rest : Runes)
        → All IsPlain rest
        → All IsPlain (elim rest [ [] ↦ if is_space r then [] else r ∷ [] | s ∷ ss ↦ r ∷ s ∷ ss ])
    go [] k = if-branches (All IsPlain) (is_space r) _ _ (λ _. tt) (λ _. (h.0, tt))
    go (s ∷ ss) k = (h.0, k)

take-IsPlain : (n : ℕ) (rs : Runes) → All IsPlain rs → All IsPlain (take n rs)
take-IsPlain zero rs h = tt
take-IsPlain (suc n) [] h = tt
take-IsPlain (suc n) (r ∷ rs) h = (h.0, take-IsPlain n rs h.1)

cut_bounds :
    (rs : Runes)
    → All IsPlain rs
    → let kept = if ltb 1024 (length rs) then take 1024 rs else rs in
      All IsPlain kept × (length kept ≤ 1024)
cut_bounds rs h = elim (Bool-cases (ltb 1024 (length rs))) [
  | inl long ↦ rw long (take-IsPlain 1024 rs h, omega (arith, length-take 1024 rs))
  | inr short ↦ rw short (h, ground (arith, short))
]

-- Whatever text a probe fails with, the error that is kept holds no control character, so it is one
-- line, and at most 1024 characters.
pub safe_error_bounds :
    (value : Runes) → All IsPlain (safe_error value) × (length (safe_error value) ≤ 1024)
unfolding safe_error
safe_error_bounds value =
    cut_bounds _ (trim_right-IsPlain _ (trim_left-IsPlain _ (map-IsPlain value)))
