-- ===== src/Ownership/Verify/Environ.antt =====
-- internal/ownership/proc.go: `ParseEnviron` reads what an environment block holds.
use vision_mcp_manager.Base.{
  ℕ, ◌≡◌, refl, ap, ◌∙◌, arith, false, ◌||◌, Option, none, some, List, [], ◌∷◌, ◌++◌, if◌then◌else◌,
}
use vision_mcp_manager.Ownership.Verify.{
  parse_environ, find_entry, cut, split, bytes_beq, has_byte, is_nil,
}

-- Variables are pairs of a name and a value.
abbrev pub Variables : Type 0
Variables = List (List ℕ × List ℕ)

-- The block in /proc/PID/environ: each variable as name, '=' and value, with a NUL after it.
abbrev pub block : Variables → List ℕ
block [] = []
block ((name, value) ∷ vs) = (name ++ 61 ∷ value) ++ 0 ∷ block vs

-- Names have no '=', and neither names nor values a NUL.
abbrev pub WellFormed : Variables → Type 0
WellFormed [] = Unit {0}
WellFormed ((name, value) ∷ vs) =
    (has_byte 61 name ≡ false)
    × (has_byte 0 name ≡ false)
    × (has_byte 0 value ≡ false)
    × WellFormed vs

-- The value of the first variable of the name.
abbrev pub first_value : List ℕ → Variables → Option (List ℕ)
first_value key [] = none
first_value key ((name, value) ∷ vs) = if bytes_beq name key then some value else first_value key vs

split-append :
    (sep : ℕ) (xs ys : List ℕ)
    → has_byte sep xs ≡ false
    → split sep (xs ++ sep ∷ ys) ≡ xs ∷ split sep ys
unfolding split has_byte
split-append sep [] ys h = ground arith
split-append sep (x ∷ xs) ys h = ground (arith, split-append sep xs ys (ground (arith, h)))

pub cut-append :
    (sep : ℕ) (xs ys : List ℕ) → has_byte sep xs ≡ false → cut sep (xs ++ sep ∷ ys) ≡ some (xs, ys)
unfolding cut has_byte
cut-append sep [] ys h = ground arith
cut-append sep (x ∷ xs) ys h = ground (arith, cut-append sep xs ys (ground (arith, h)))

pub has_byte-append :
    (x : ℕ) (cs bs : List ℕ) → has_byte x (cs ++ bs) ≡ (has_byte x cs || has_byte x bs)
unfolding has_byte
has_byte-append x [] bs = refl
has_byte-append x (a ∷ cs) bs = ground (arith, has_byte-append x cs bs)

has_byte-assignment :
    (name value : List ℕ)
    → has_byte 0 name ≡ false
    → has_byte 0 value ≡ false
    → has_byte 0 (name ++ 61 ∷ value) ≡ false
unfolding has_byte
has_byte-assignment name value n v = ground (arith, n, v, has_byte-append 0 name (61 ∷ value))

find_entry-assignment :
    (key name value : List ℕ) (rest : List (List ℕ))
    → has_byte 61 name ≡ false
    → find_entry key ((name ++ 61 ∷ value) ∷ rest)
      ≡ (if bytes_beq name key then some value else find_entry key rest)
unfolding find_entry
find_entry-assignment key name value rest h = ground (arith, cut-append 61 name value h)

find_entry-block :
    (key : List ℕ) (vs : Variables)
    → WellFormed vs
    → find_entry key (split 0 (block vs)) ≡ first_value key vs
find_entry-block key [] w = unfold find_entry split cut in refl
find_entry-block key ((name, value) ∷ vs) w =
    ap (find_entry key)
      (split-append 0 (name ++ 61 ∷ value) (block vs) (has_byte-assignment name value w.1 w.2))
    ∙ find_entry-assignment key name value (split 0 (block vs)) w.0
    ∙ ap (λ x. if bytes_beq name key then some value else x) (find_entry-block key vs w.3)

-- The environment is read back. Of the block of well-formed variables, `ParseEnviron` gives for a
-- key the value of the first variable whose name is the key, and nothing for a key that is empty
-- or has an '=' or a NUL in it.
pub environ_round_trip :
    (key : List ℕ) (vs : Variables)
    → WellFormed vs
    → parse_environ (block vs) key
      ≡ (if is_nil key || (has_byte 61 key || has_byte 0 key) then none else first_value key vs)
unfolding parse_environ
environ_round_trip key vs w = rw (find_entry-block key vs w)
