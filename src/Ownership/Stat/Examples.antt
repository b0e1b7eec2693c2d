-- ===== src/Ownership/Stat/Examples.antt =====
-- internal/ownership/proc.go: the theorem at a concrete line.
use vision_mcp_manager.Base.{ℕ, zero, suc, ◌≡◌, refl, arith, some, List, [], ◌∷◌}
use vision_mcp_manager.Ownership.Verify.{has_byte}
use vision_mcp_manager.Ownership.Stat.{is_space, parse_uint, atoi, positive, parse_proc_stat}
use vision_mcp_manager.Ownership.Stat.Lines.{IsWord, AreWords, line, stat_round_trip}

-- "42", and a command called ") (".
abbrev pid : List ℕ
pid = 52 ∷ 50 ∷ []

abbrev command : List ℕ
command = 41 ∷ 32 ∷ 40 ∷ []

abbrev seven : List ℕ
seven = 55 ∷ []

abbrev sevens : ℕ → List (List ℕ) → List (List ℕ)
sevens zero later = later
sevens (suc n) later = seven ∷ sevens n later

abbrev fields : List (List ℕ)
fields = seven ∷ pid ∷ sevens 17 []

pid-IsWord : IsWord 40 pid
unfolding is_space has_byte
pid-IsWord = (refl, (refl, (refl, tt)), refl)

sevens-AreWords : (n : ℕ) → AreWords (sevens n [])
unfolding is_space has_byte
sevens-AreWords zero = tt
sevens-AreWords (suc n) = ((refl, (refl, tt), refl), sevens-AreWords n)

fields-AreWords : AreWords ((83 ∷ []) ∷ fields)
unfolding is_space has_byte
fields-AreWords = (
  (refl, (refl, tt), refl),
  ((refl, (refl, tt), refl), ((refl, (refl, (refl, tt)), refl), sevens-AreWords 17)),
)

pid_reads : positive (atoi pid) ≡ some 42
unfolding atoi
pid_reads = refl

seven_reads : parse_uint seven ≡ some 7
unfolding parse_uint
seven_reads = refl

stat_round_trip_example :
    parse_proc_stat (line pid command ((83 ∷ []) ∷ fields))
    ≡ some (record { pid = 42; pgrp = 42; start_time = 7 })
stat_round_trip_example =
    stat_round_trip pid command pid seven 83 fields 42 42 7 pid-IsWord fields-AreWords (omega arith)
      pid_reads refl pid_reads refl seven_reads (omega arith)
