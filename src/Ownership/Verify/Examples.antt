-- ===== src/Ownership/Verify/Examples.antt =====
-- internal/ownership/proc.go: the theorems at a small process table.
use vision_mcp_manager.Base.{
  ℕ, ◌+◌, ◌≡◌, ◌≢◌, refl, String, ◌||◌, none, some, List, [], ◌∷◌, if◌then◌else◌, All, string_eq,
}
use vision_mcp_manager.Ownership.Verify.{
  Lease, ServerIdentity, ProcReader, owned, dead, verify_group, check_leader, check_group,
  check_members, check_member, parse_environ, find_entry, split, cut, bytes_beq, has_byte,
  owner_token_env_key, is_nil,
}
use vision_mcp_manager.Ownership.Verify.Environ.{
  Variables, block, WellFormed, first_value, environ_round_trip,
}
use vision_mcp_manager.Ownership.Verify.Sound.{Member, owned_sound}

abbrev config_hash : ServerIdentity → String
config_hash identity = identity.name

abbrev token_hash : List ℕ → String
token_hash token = if bytes_beq token (49 ∷ []) then "one" else "other"

abbrev identity : ServerIdentity
identity = record {
  name = "web";
  command = "run";
  args = [];
  url = "";
  transport = "http";
  env = [];
}

abbrev lease : Lease
lease = record {
  version = 1;
  generation = 7;
  server_name = "web";
  daemon_id = "d";
  owner_token_hash = "one";
  config_hash = "web";
  leader_pid = 40;
  leader_pgid = 40;
  leader_start = 900;
  boot_id = "boot";
  executable = "/bin/web";
  created_at = 1;
}

abbrev variables : Variables
variables = (72 ∷ [], 47 ∷ []) ∷ (owner_token_env_key, 49 ∷ []) ∷ []

-- The leader and one child are alive.
abbrev table : ProcReader
table = record {
  read_stat = λ pid. some (record { pid = pid; pgrp = 40; start_time = 860 + pid });
  read_environ = λ pid. some (block variables);
  read_exe = λ pid. some "/bin/web";
  read_boot_id = some "boot";
  list_members = λ pgid. some (40 ∷ 41 ∷ []);
}

abbrev empty_table : ProcReader
empty_table = record table { read_stat = λ pid. none; list_members = λ pgid. some [] }

is_owned : verify_group config_hash token_hash (some table) lease identity ≡ owned
unfolding verify_group check_leader check_group check_members check_member parse_environ find_entry
    split cut bytes_beq has_byte
is_owned = refl

owned_sound_example :
    (table.read_boot_id ≡ some lease.boot_id)
    × (config_hash identity ≡ lease.config_hash)
    × ((members : List ℕ) × (table.list_members lease.leader_pgid ≡ some members)
        × (members ≢ [])
        × All (Member token_hash table lease) members)
owned_sound_example = owned_sound config_hash token_hash table lease identity is_owned

is_dead : verify_group config_hash token_hash (some empty_table) lease identity ≡ dead
unfolding verify_group check_leader check_group
is_dead = refl

well_formed : WellFormed variables
unfolding has_byte
well_formed = (refl, refl, refl, (refl, refl, refl, tt))

environ_round_trip_example : parse_environ (block variables) owner_token_env_key ≡ (
    if is_nil owner_token_env_key
      || (has_byte 61 owner_token_env_key || has_byte 0 owner_token_env_key)
    then none
    else first_value owner_token_env_key variables)
environ_round_trip_example = environ_round_trip owner_token_env_key variables well_formed
