-- ===== src/Reachability/Text.antt =====
-- internal/reachability/reachability.go: the bounded, single-line form of a probe's error.
use vision_mcp_manager.Base.{
  ℕ, Bool, ◌||◌, ◌&&◌, List, [], ◌∷◌, map, ltb, leb, nat_beq, if◌then◌else◌, length, take,
}

abbrev pub max_error_length : ℕ
max_error_length = 1024

-- A text as its code points.
abbrev pub Runes : Type 0
Runes = List ℕ

-- `unicode.IsControl`
abbrev pub is_control : ℕ → Bool
is_control r = ltb r 32 || (leb 127 r && ltb r 160)

-- `unicode.IsSpace`, outside the control characters, and those that it counts as space.
abbrev pub is_space : ℕ → Bool
is_space r =
    (leb 9 r && leb r 13)
    || (nat_beq r 32
        || (nat_beq r 133
            || (nat_beq r 160
                || (nat_beq r 5760
                    || ((leb 8192 r && leb r 8202)
                        || (nat_beq r 8232
                            || (nat_beq r 8233
                                || (nat_beq r 8239 || (nat_beq r 8287 || nat_beq r 12288)))))))))

unfoldable pub trim_left : Runes → Runes
trim_left [] = []
trim_left (r ∷ rs) = if is_space r then trim_left rs else r ∷ rs

-- A suffix of spaces goes: a rune stays if it is no space or one that stays follows it.
unfoldable pub trim_right : Runes → Runes
trim_right [] = []
trim_right (r ∷ rs) =
    let rest = trim_right rs in
    elim rest [ [] ↦ if is_space r then [] else r ∷ [] | s ∷ ss ↦ r ∷ s ∷ ss ]

unfoldable pub safe_error : Runes → Runes
unfolding trim_left trim_right
safe_error value =
    let runes = trim_right (trim_left (map (λ r. if is_control r then 32 else r) value)) in
    if ltb max_error_length (length runes) then take max_error_length runes else runes
