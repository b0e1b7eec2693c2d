-- ===== src/Ownership/Verify.antt =====
-- internal/ownership/proc.go and types.go: the proof that a process group is the lease's. Bytes are
-- natural numbers, an environment is a list of them, and a read that fails is `none`. A reader is
-- what one call sees of the process table. The two hashes are parameters.
pub mod Environ
pub mod Sound
mod Examples
use vision_mcp_manager.Base.{
  ℕ, zero, suc, Bool, true, false, not, ◌&&◌, ◌||◌, Option, none, some, String, List, [], ◌∷◌, ltb,
  nat_beq, if◌then◌else◌, ◌==◌, Dict, nat_eq, string_eq,
}

pub record Lease : Type 0 where
  pub version : ℕ
  pub generation : ℕ
  pub server_name : String
  pub daemon_id : String
  pub owner_token_hash : String
  pub config_hash : String
  pub leader_pid : ℕ
  pub leader_pgid : ℕ
  pub leader_start : ℕ
  pub boot_id : String
  pub executable : String
  pub created_at : ℕ

pub record ServerIdentity : Type 0 where
  pub name : String
  pub command : String
  pub args : List String
  pub url : String
  pub transport : String
  pub env : Dict String String

pub record ProcStat : Type 0 where
  pub pid : ℕ
  pub pgrp : ℕ
  pub start_time : ℕ

pub record ProcReader : Type 0 where
  pub read_stat : ℕ → Option ProcStat
  pub read_environ : ℕ → Option (List ℕ)
  pub read_exe : ℕ → Option String
  pub read_boot_id : Option String
  pub list_members : ℕ → Option (List ℕ)

pub data GroupStatus : Type 0 where
  owned dead conflict unknown : GroupStatus

abbrev pub lease_schema_version : ℕ
lease_schema_version = 1

-- "VISION_BACKEND_OWNER_TOKEN" in bytes.
abbrev pub owner_token_env_key : List ℕ
owner_token_env_key =
    86 ∷ 73 ∷ 83 ∷ 73 ∷ 79 ∷ 78 ∷ 95 ∷ 66 ∷ 65 ∷ 67 ∷ 75 ∷ 69 ∷ 78 ∷ 68 ∷ 95 ∷ 79 ∷ 87 ∷ 78 ∷ 69
    ∷ 82 ∷ 95 ∷ 84 ∷ 79 ∷ 75 ∷ 69 ∷ 78 ∷ []

unfoldable pub bytes_beq : List ℕ → List ℕ → Bool
bytes_beq [] [] = true
bytes_beq [] (b ∷ bs) = false
bytes_beq (a ∷ rest) [] = false
bytes_beq (a ∷ rest) (b ∷ bs) = nat_beq a b && bytes_beq rest bs

-- `bytes.Split` at one byte.
unfoldable pub split : ℕ → List ℕ → List (List ℕ)
split sep [] = [] ∷ []
split sep (b ∷ bs) =
    let rest = split sep bs in
    if nat_beq b sep
    then [] ∷ rest
    else elim rest [ [] ↦ (b ∷ []) ∷ [] | part ∷ parts ↦ (b ∷ part) ∷ parts ]

-- `strings.Cut` at one byte.
unfoldable pub cut : ℕ → List ℕ → Option (List ℕ × List ℕ)
cut sep [] = none
cut sep (b ∷ bs) =
    let rest = cut sep bs in
    if nat_beq b sep
    then some ([], bs)
    else elim rest [ none ↦ none | some (before, after) ↦ some (b ∷ before, after) ]

unfoldable pub has_byte : ℕ → List ℕ → Bool
has_byte x [] = false
has_byte x (b ∷ bs) = nat_beq b x || has_byte x bs

abbrev pub is_nil : List ℕ → Bool
is_nil [] = true
is_nil (b ∷ bs) = false

-- The loop over the entries.
unfoldable pub find_entry : List ℕ → List (List ℕ) → Option (List ℕ)
find_entry key [] = none
find_entry key (entry ∷ entries) =
    let rest = find_entry key entries in
    elim (cut 61 entry) [
      | none ↦ rest
      | some (name, value) ↦ if bytes_beq name key then some value else rest
    ]

unfoldable pub parse_environ : List ℕ → List ℕ → Option (List ℕ)
parse_environ bytes key =
    if is_nil key || (has_byte 61 key || has_byte 0 key)
    then none
    else find_entry key (split 0 bytes)

module _ (config_hash : ServerIdentity → String) (token_hash : List ℕ → String) where
  -- The leader's part of the check; `none` is no verdict, with whether the leader lives.
  unfoldable pub check_leader : ProcReader → Lease → Option GroupStatus × Bool
  check_leader reader lease = elim (reader.read_stat lease.leader_pid) [
    | none ↦ (none, false)
    | some leader ↦
        if not (nat_beq leader.pid lease.leader_pid)
          || (not (nat_beq leader.pgrp lease.leader_pgid)
              || not (nat_beq leader.start_time lease.leader_start))
        then (some conflict, true)
        else elim (reader.read_exe lease.leader_pid) [
          | none ↦ (some unknown, true)
          | some exe ↦
              if not (lease.executable == "") && not (exe == lease.executable)
              then (some conflict, true)
              else (none, true)
        ]
  ]

  -- One member of the group; `none` is no verdict.
  unfoldable pub check_member : ProcReader → Lease → ℕ → Option GroupStatus
  check_member reader lease member = elim (reader.read_stat member) [
    | none ↦ some unknown
    | some stat ↦
        if not (nat_beq stat.pid member) || not (nat_beq stat.pgrp lease.leader_pgid)
        then some conflict
        else if ltb stat.start_time lease.leader_start
        then some conflict
        else elim (reader.read_environ member) [
          | none ↦ some unknown
          | some env ↦ elim (parse_environ env owner_token_env_key) [
            | none ↦ some conflict
            | some token ↦
                if is_nil token || not (token_hash token == lease.owner_token_hash)
                then some conflict
                else none
          ]
        ]
  ]

  -- The loop over the members, with `seenLeader`, and what follows it.
  unfoldable pub check_members :
      ProcReader → Lease → (leader_live seen : Bool) → List ℕ → GroupStatus
  check_members reader lease leader_live seen [] =
      if leader_live && not seen then conflict else owned
  check_members reader lease leader_live seen (member ∷ members) =
      let rest =
        check_members reader lease leader_live
          (if nat_beq member lease.leader_pid then true else seen) members in
      elim (check_member reader lease member) [ none ↦ rest | some status ↦ status ]

  -- From the list of the group's members on.
  unfoldable pub check_group : ProcReader → Lease → (leader_live : Bool) → GroupStatus
  check_group reader lease leader_live = elim (reader.list_members lease.leader_pgid) [
    | none ↦ unknown
    | some members ↦
        if is_nil members
        then (if leader_live then unknown else dead)
        else check_members reader lease leader_live false members
  ]

  -- The error that the code returns beside the status is nil on every path.
  unfoldable pub verify_group : Option ProcReader → Lease → ServerIdentity → GroupStatus
  verify_group none lease identity = unknown
  verify_group (some reader) lease identity =
      if not (nat_beq lease.version lease_schema_version)
        || (lease.owner_token_hash == "" || lease.config_hash == "")
      then unknown
      else elim reader.read_boot_id [
        | none ↦ unknown
        | some boot ↦
            if not (boot == lease.boot_id)
            then unknown
            else if not (config_hash identity == lease.config_hash)
            then conflict
            else let (verdict, leader_live) = check_leader reader lease in
              elim verdict [ none ↦ check_group reader lease leader_live | some status ↦ status ]
      ]
