-- ===== src/Ownership/Stat.antt =====
-- internal/ownership/proc.go and proc_linux.go: `ParseProcStat` and `ReadStat`. Bytes are natural
-- numbers; white space is that of ASCII.
pub mod Lines
mod Examples
use vision_mcp_manager.Base.{
  ℕ, zero, suc, ◌+◌, ◌-◌, ◌*◌, Bool, true, false, not, ◌&&◌, ◌||◌, Option, none, some, List, [],
  ◌∷◌, length, ltb, leb, nat_beq, if◌then◌else◌, ℤ, pos, sub_ℕ,
}
use vision_mcp_manager.Ownership.Verify.{ProcStat, cut, is_nil}

pub is_space : ℕ → Bool
is_space b = leb 9 b && leb b 13 || nat_beq b 32

-- `strings.TrimSpace`.
pub trim_left : List ℕ → List ℕ
unfolding is_space
trim_left [] = []
trim_left (b ∷ bs) = let rest = trim_left bs in if is_space b then rest else b ∷ bs

pub trim_right : List ℕ → List ℕ
unfolding is_space
trim_right [] = []
trim_right (b ∷ bs) = let rest = trim_right bs in if is_nil rest && is_space b then [] else b ∷ rest

pub trim_space : List ℕ → List ℕ
unfolding trim_left trim_right
trim_space bs = trim_right (trim_left bs)

-- The bytes before and after the last byte `sep`.
pub cut_last : ℕ → List ℕ → Option (List ℕ × List ℕ)
cut_last sep [] = none
cut_last sep (b ∷ bs) = elim (cut_last sep bs) [
  | some (before, after) ↦ some (b ∷ before, after)
  | none ↦ if nat_beq b sep then some ([], bs) else none
]

abbrev pub add_word : List ℕ → List (List ℕ) → List (List ℕ)
add_word [] words = words
add_word (b ∷ bs) words = (b ∷ bs) ∷ words

-- The word that the bytes begin with, and the later ones.
pub words_of : List ℕ → List ℕ × List (List ℕ)
unfolding is_space
words_of [] = ([], [])
words_of (b ∷ bs) =
    let (word, later) = words_of bs in
    if is_space b then ([], add_word word later) else (b ∷ word, later)

-- `strings.Fields`.
pub split_fields : List ℕ → List (List ℕ)
unfolding words_of
split_fields bs = let (word, later) = words_of bs in add_word word later

-- The number that decimal digits form, after `acc`.
pub read_digits : ℕ → List ℕ → Option ℕ
read_digits acc [] = some acc
read_digits acc (b ∷ bs) =
    let rest = read_digits (10 * acc + (b - 48)) bs in if leb 48 b && leb b 57 then rest else none

-- `strconv.ParseUint` in base 10 with 64 bits.
pub parse_uint : List ℕ → Option ℕ
unfolding read_digits
parse_uint [] = none
parse_uint (b ∷ bs) = elim (read_digits 0 (b ∷ bs)) [
  | none ↦ none
  | some n ↦ if ltb n 18446744073709551616 then some n else none
]

-- The digits of a number of at most `bound`.
abbrev pub within : (bound : ℕ) → Option ℕ → Option ℕ
within bound none = none
within bound (some n) = if leb n bound then some n else none

abbrev pub negated : Option ℕ → Option ℤ
negated none = none
negated (some n) = some (sub_ℕ 0 n)

abbrev pub unsigned : Option ℕ → Option ℤ
unsigned none = none
unsigned (some n) = some (pos n)

-- `strconv.Atoi`, which reads an int64 with an optional sign.
pub atoi : List ℕ → Option ℤ
unfolding parse_uint
atoi [] = none
atoi (b ∷ bs) =
    if nat_beq b 45
    then negated (within 9223372036854775808 (parse_uint bs))
    else if nat_beq b 43
    then unsigned (within 9223372036854775807 (parse_uint bs))
    else unsigned (within 9223372036854775807 (parse_uint (b ∷ bs)))

-- A positive number, or an error.
abbrev pub positive : Option ℤ → Option ℕ
positive none = none
positive (some (pos n)) = if ltb 0 n then some n else none
positive (some _) = none

abbrev pub field_at : ℕ → List (List ℕ) → Option (List ℕ)
field_at n [] = none
field_at zero (f ∷ fs) = some f
field_at (suc n) (f ∷ fs) = field_at n fs

-- The fields that follow the command's name.
pub parse_fields : (pid : ℕ) → List (List ℕ) → Option ProcStat
unfolding atoi parse_uint
parse_fields pid fields = elim (field_at 0 fields) [
  | none ↦ none
  | some state ↦
      if leb (length fields) 19 || not (nat_beq (length state) 1)
      then none
      else elim (field_at 2 fields) [
        | none ↦ none
        | some group ↦ elim (positive (atoi group)) [
          | none ↦ none
          | some pgrp ↦ elim (field_at 19 fields) [
            | none ↦ none
            | some start ↦ elim (parse_uint start) [
              | none ↦ none
              | some n ↦
                  if nat_beq n 0
                  then none
                  else some (record { pid = pid; pgrp = pgrp; start_time = n })
            ]
          ]
        ]
      ]
]

-- What stands before the parentheses, and the command with what follows it.
pub parse_closed : List ℕ → Option (List ℕ × List ℕ) → Option ProcStat
unfolding atoi trim_space split_fields parse_fields
parse_closed before none = none
parse_closed before (some (command, rest)) =
    if is_nil before || is_nil rest then none else elim (positive (atoi (trim_space before))) [
      | none ↦ none
      | some pid ↦ parse_fields pid (split_fields rest)
    ]

pub parse_opened : Option (List ℕ × List ℕ) → Option ProcStat
unfolding cut_last parse_closed
parse_opened none = none
parse_opened (some (before, after)) = parse_closed before (cut_last 41 after)

pub parse_proc_stat : List ℕ → Option ProcStat
unfolding trim_space parse_opened
parse_proc_stat bytes = parse_opened (cut 40 (trim_space bytes))

-- `ReadStat` of the process, where `file` is what its stat file holds, if it can be read.
pub read_stat : (pid : ℕ) → (file : Option (List ℕ)) → Option ProcStat
unfolding parse_proc_stat
read_stat pid file = if nat_beq pid 0 then none else elim file [
  | none ↦ none
  | some bytes ↦ elim (parse_proc_stat bytes) [
    | none ↦ none
    | some stat ↦ if nat_beq stat.pid pid then some stat else none
  ]
]
