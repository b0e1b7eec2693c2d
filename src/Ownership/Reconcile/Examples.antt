-- ===== src/Ownership/Reconcile/Examples.antt =====
-- internal/ownership/reconcile.go: the theorems at one orphan group that ends on SIGTERM.
use vision_mcp_manager.Base.{
  ℕ, true, Option, none, some, String, List, [], ◌∷◌, ltb, if◌then◌else◌, Dict,
}
use vision_mcp_manager.Ownership.Verify.{Lease, ServerIdentity, ProcReader}
use vision_mcp_manager.Ownership.Reconcile.{World, Run, tick, reconcile}
use vision_mcp_manager.Ownership.Reconcile.Safety.{Justified, reconcile-Justified}

abbrev config_hash : ServerIdentity → String
config_hash identity = identity.name

abbrev token_hash : List ℕ → String
token_hash token = "one"

abbrev identity : ServerIdentity
identity = record {
  name = "web";
  command = "run";
  args = [];
  url = "";
  transport = "http";
  env = [];
}

abbrev lease : Lease
lease = record {
  version = 1;
  generation = 7;
  server_name = "web";
  daemon_id = "d";
  owner_token_hash = "one";
  config_hash = "web";
  leader_pid = 40;
  leader_pgid = 40;
  leader_start = 900;
  boot_id = "boot";
  executable = "";
  created_at = 1;
}

-- The group's process is there until the fifth consultation.
abbrev table_at : ℕ → ProcReader
table_at n = record {
  read_stat =
      λ pid. if ltb n 5 then some (record { pid = pid; pgrp = 40; start_time = 900 }) else none;
  read_environ = λ pid. some (
      86 ∷ 73 ∷ 83 ∷ 73 ∷ 79 ∷ 78 ∷ 95 ∷ 66 ∷ 65 ∷ 67 ∷ 75 ∷ 69 ∷ 78 ∷ 68 ∷ 95 ∷ 79 ∷ 87 ∷ 78 ∷ 69
      ∷ 82 ∷ 95 ∷ 84 ∷ 79 ∷ 75 ∷ 69 ∷ 78 ∷ 61 ∷ 49 ∷ 0 ∷ []);
  read_exe = λ pid. some "/bin/web";
  read_boot_id = some "boot";
  list_members = λ pgid. some (if ltb n 5 then 40 ∷ [] else []);
}

abbrev world : World
world = record {
  reader = some table_at;
  context_ok = λ n. true;
  wake = λ n. tick;
  supported = true;
  can_signal = λ n. true;
  stored = λ n name. some lease;
  can_release = λ n. true;
}

abbrev expected : Dict String ServerIdentity
expected = ("web", identity) ∷ []

abbrev records : List (String × Option Lease)
records = ("web", some lease) ∷ ("gone", none) ∷ []

abbrev start : Run
start = record { consulted = 0; log = [] }

abbrev ended : Run
ended =
    (reconcile config_hash token_hash world true (some records) expected (some 4) (some 4) start).1

reconcile-Justified_example : Justified ended.log
reconcile-Justified_example =
    reconcile-Justified config_hash token_hash world true (some records) expected (some 4) (some 4)
      start tt
