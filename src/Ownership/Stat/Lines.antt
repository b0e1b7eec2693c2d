-- ===== src/Ownership/Stat/Lines.antt =====
-- internal/ownership/proc.go: `ParseProcStat` reads what the kernel writes.
use vision_mcp_manager.Base.{
  ℕ, ◌≡◌, ◌<◌, refl, ap, sym, ◌∙◌, arith, true, false, none, some, List, [], ◌∷◌, ◌++◌, length,
}
use mathlib.Core.List.{append-nil, append_assoc}
use vision_mcp_manager.Ownership.Verify.{cut, is_nil, has_byte}
use vision_mcp_manager.Ownership.Verify.Environ.{cut-append, has_byte-append}
use vision_mcp_manager.Ownership.Stat.{
  is_space, trim_left, trim_right, trim_space, cut_last, words_of, split_fields, atoi, positive,
  field_at, parse_uint, parse_fields, parse_closed, parse_opened, parse_proc_stat,
}

-- No byte is white space.
abbrev pub NoSpace : List ℕ → Type 0
NoSpace [] = Unit {0}
NoSpace (b ∷ bs) = (is_space b ≡ false) × NoSpace bs

-- A word is not empty, and has neither white space nor the byte `sep`.
abbrev pub IsWord : ℕ → List ℕ → Type 0
IsWord sep word = (is_nil word ≡ false) × NoSpace word × (has_byte sep word ≡ false)

abbrev pub AreWords : List (List ℕ) → Type 0
AreWords [] = Unit {0}
AreWords (w ∷ ws) = IsWord 41 w × AreWords ws

-- Each field after a space.
abbrev pub joined : List (List ℕ) → List ℕ
joined [] = []
joined (w ∷ ws) = 32 ∷ (w ++ joined ws)

-- A line of /proc/PID/stat: the process, its command in parentheses, the fields, and a newline.
abbrev pub line : (pid command : List ℕ) → List (List ℕ) → List ℕ
line pid command fields = (pid ++ 32 ∷ []) ++ 40 ∷ (command ++ 41 ∷ (joined fields ++ 10 ∷ []))

trim_right-word :
    (w : List ℕ) (b : ℕ) → NoSpace w → is_space b ≡ true → trim_right (w ++ b ∷ []) ≡ w
unfolding trim_right
trim_right-word [] b n s = ground (arith, s)
trim_right-word (c ∷ w) b n s = ground (arith, s, n.0, trim_right-word w b n.1 s)

is_nil-append : (xs ys : List ℕ) → is_nil ys ≡ false → is_nil (xs ++ ys) ≡ false
is_nil-append [] ys h = h
is_nil-append (x ∷ xs) ys h = refl

-- What ends in something that stays is kept.
trim_right-append :
    (xs ys : List ℕ) → is_nil (trim_right ys) ≡ false → trim_right (xs ++ ys) ≡ xs ++ trim_right ys
unfolding trim_right
trim_right-append [] ys h = refl
trim_right-append (x ∷ xs) ys h =
    ground (arith, h, trim_right-append xs ys h, is_nil-append xs (trim_right ys) h)

newline : is_space 10 ≡ true
unfolding is_space
newline = refl

space : is_space 32 ≡ true
unfolding is_space
space = refl

trim_right-joined :
    (w : List ℕ) (ws : List (List ℕ))
    → AreWords (w ∷ ws)
    → trim_right (joined (w ∷ ws) ++ 10 ∷ []) ≡ joined (w ∷ ws)
trim_right-joined w [] v =
    let ends = trim_right-word w 10 v.0.1 newline in
    rw (append-nil w)
      (trim_right-append (32 ∷ []) (w ++ 10 ∷ []) (ap is_nil ends ∙ v.0.0) ∙ ap (λ t. 32 ∷ t) ends)
trim_right-joined w (w' ∷ ws) v =
    let ends = trim_right-joined w' ws v.1 in
    ap (λ t. trim_right (32 ∷ t)) (append_assoc w (joined (w' ∷ ws)) (10 ∷ []))
    ∙ trim_right-append (32 ∷ w) (joined (w' ∷ ws) ++ 10 ∷ []) (ap is_nil ends)
    ∙ ap (λ t. 32 ∷ (w ++ t)) ends

cut_last-missing : (sep : ℕ) (xs : List ℕ) → has_byte sep xs ≡ false → cut_last sep xs ≡ none
unfolding cut_last has_byte
cut_last-missing sep [] h = refl
cut_last-missing sep (x ∷ xs) h = ground (arith, h, cut_last-missing sep xs)

cut_last-append :
    (sep : ℕ) (xs ys : List ℕ)
    → has_byte sep ys ≡ false
    → cut_last sep (xs ++ sep ∷ ys) ≡ some (xs, ys)
unfolding cut_last
cut_last-append sep [] ys h = ground (arith, cut_last-missing sep ys h)
cut_last-append sep (x ∷ xs) ys h = ground (arith, cut_last-append sep xs ys h)

has_byte-joined : (ws : List (List ℕ)) → AreWords ws → has_byte 41 (joined ws) ≡ false
unfolding has_byte
has_byte-joined [] v = refl
has_byte-joined (w ∷ ws) v =
    ground (arith, v.0.2, has_byte-append 41 w (joined ws), has_byte-joined ws v.1)

-- The fields are found again.
words_of-word :
    (w rest : List ℕ) (later : List (List ℕ))
    → NoSpace w
    → words_of rest ≡ ([], later)
    → words_of (w ++ rest) ≡ (w, later)
unfolding words_of
words_of-word [] rest later n h = h
words_of-word (b ∷ w) rest later n h = ground (arith, n.0, words_of-word w rest later n.1 h)

words_of-joined : (ws : List (List ℕ)) → AreWords ws → words_of (joined ws) ≡ ([], ws)
unfolding words_of
words_of-joined [] v = refl
words_of-joined (w ∷ ws) v =
    ground (arith, space, v.0.0, words_of-word w (joined ws) ws v.0.1 (words_of-joined ws v.1))

split_fields-joined : (ws : List (List ℕ)) → AreWords ws → split_fields (joined ws) ≡ ws
unfolding split_fields
split_fields-joined ws v = rw (words_of-joined ws v) refl

trim_left-word :
    (w rest : List ℕ) → is_nil w ≡ false → NoSpace w → trim_left (w ++ rest) ≡ w ++ rest
unfolding trim_left
trim_left-word [] rest h n = cc h
trim_left-word (b ∷ w) rest h n = ground (arith, n.0)

-- The line without its newline.
abbrev trimmed : (pid command : List ℕ) → List (List ℕ) → List ℕ
trimmed pid command fields = (pid ++ 32 ∷ []) ++ 40 ∷ (command ++ 41 ∷ joined fields)

trim_right-line :
    (pid command w : List ℕ) (ws : List (List ℕ))
    → AreWords (w ∷ ws)
    → trim_right (line pid command (w ∷ ws)) ≡ trimmed pid command (w ∷ ws)
trim_right-line pid command w ws v =
    let ends = trim_right-joined w ws v in
    let tail = joined (w ∷ ws) ++ 10 ∷ [] in
    let closed = trim_right-append (41 ∷ []) tail (ap is_nil ends) ∙ ap (λ t. 41 ∷ t) ends in
    let named =
      trim_right-append (40 ∷ command) (41 ∷ tail) (ap is_nil closed)
      ∙ ap (λ t. 40 ∷ (command ++ t)) closed in
    trim_right-append (pid ++ 32 ∷ []) (40 ∷ (command ++ 41 ∷ tail)) (ap is_nil named)
    ∙ ap (λ t. (pid ++ 32 ∷ []) ++ t) named

trim_space-line :
    (pid command w : List ℕ) (ws : List (List ℕ))
    → IsWord 40 pid
    → AreWords (w ∷ ws)
    → trim_space (line pid command (w ∷ ws)) ≡ trimmed pid command (w ∷ ws)
unfolding trim_space
trim_space-line pid command w ws p v =
    let after = 40 ∷ (command ++ 41 ∷ (joined (w ∷ ws) ++ 10 ∷ [])) in
    let same = append_assoc pid (32 ∷ []) after in
    ap trim_right (ap trim_left same ∙ trim_left-word pid (32 ∷ after) p.0 p.1 ∙ sym same)
    ∙ trim_right-line pid command w ws v

pid-bytes : (pid : List ℕ) → IsWord 40 pid → has_byte 40 (pid ++ 32 ∷ []) ≡ false
unfolding has_byte
pid-bytes pid p = ground (arith, p.2, has_byte-append 40 pid (32 ∷ []))

pid-trimmed : (pid : List ℕ) → IsWord 40 pid → trim_space (pid ++ 32 ∷ []) ≡ pid
unfolding trim_space
pid-trimmed pid p =
    ap trim_right (trim_left-word pid (32 ∷ []) p.0 p.1) ∙ trim_right-word pid 32 p.1 space

parse_closed-line :
    (pid command w : List ℕ) (ws : List (List ℕ)) (n : ℕ)
    → IsWord 40 pid
    → AreWords (w ∷ ws)
    → positive (atoi pid) ≡ some n
    → parse_closed (pid ++ 32 ∷ []) (some (command, joined (w ∷ ws))) ≡ parse_fields n (w ∷ ws)
unfolding parse_closed
parse_closed-line pid command w ws n p v reads =
    rw (is_nil-append pid (32 ∷ []) refl, pid-trimmed pid p, reads, split_fields-joined (w ∷ ws) v)
      refl

-- Of a line of /proc/PID/stat, what is parsed are the process and the fields.
parse-line :
    (pid command w : List ℕ) (ws : List (List ℕ)) (n : ℕ)
    → IsWord 40 pid
    → AreWords (w ∷ ws)
    → positive (atoi pid) ≡ some n
    → parse_proc_stat (line pid command (w ∷ ws)) ≡ parse_fields n (w ∷ ws)
unfolding parse_proc_stat parse_opened
parse-line pid command w ws n p v reads =
    let fields = joined (w ∷ ws) in
    ap (λ t. parse_opened (cut 40 t)) (trim_space-line pid command w ws p v)
    ∙ ap parse_opened (cut-append 40 (pid ++ 32 ∷ []) (command ++ 41 ∷ fields) (pid-bytes pid p))
    ∙ ap (parse_closed (pid ++ 32 ∷ []))
        (cut_last-append 41 command fields (has_byte-joined (w ∷ ws) v))
    ∙ parse_closed-line pid command w ws n p v reads

-- `ParseProcStat` reads back what the kernel writes, whatever the command is called: of a line with
-- the process, any command in parentheses, be there spaces and parentheses in it, and at least
-- twenty words of which the first is a letter, it gives the process, the group of the third and the
-- start time of the twentieth, if these are positive numbers in their range.
pub stat_round_trip :
    (pid command group start : List ℕ) (state : ℕ) (ws : List (List ℕ)) (n pgrp time : ℕ)
    → IsWord 40 pid
    → AreWords ((state ∷ []) ∷ ws)
    → 18 < length ws
    → positive (atoi pid) ≡ some n
    → field_at 1 ws ≡ some group
    → positive (atoi group) ≡ some pgrp
    → field_at 18 ws ≡ some start
    → parse_uint start ≡ some time
    → 0 < time
    → parse_proc_stat (line pid command ((state ∷ []) ∷ ws))
      ≡ some (record { pid = n; pgrp = pgrp; start_time = time })
stat_round_trip pid command group start state ws n pgrp time p v long reads third g twentieth t
      now =
    parse-line pid command (state ∷ []) ws n p v reads
    ∙ unfold parse_fields in ground (arith, long, third, g, twentieth, t, now)
