-- ===== src/Ownership/Verify/Sound.antt =====
-- internal/ownership/proc.go: what the verdicts of `VerifyGroup` rest on.
use vision_mcp_manager.Base.{
  ℕ, ◌≡◌, ◌≤◌, ◌≢◌, ◌⊎◌, refl, inl, inr, arith, Bool, true, false, none, some, String, List, [],
  ◌∷◌, if◌then◌else◌, Option-cases, All, string_eq, nat_beq,
}
use vision_mcp_manager.Ownership.Verify.{
  Lease, ServerIdentity, ProcStat, ProcReader, GroupStatus, owned, dead, verify_group, check_group,
  check_leader, check_member, check_members, parse_environ, owner_token_env_key,
}

-- A member that is the lease's: its process group is, it is not older than the leader was, and its
-- environment holds a token with the lease's hash.
pub record Member (token_hash : List ℕ → String) (reader : ProcReader) (lease : Lease) (pid : ℕ)
    : Type 0 where
  pub stat : ProcStat
  pub env : List ℕ
  pub token : List ℕ
  pub has_stat : reader.read_stat pid ≡ some stat
  pub in_group : stat.pgrp ≡ lease.leader_pgid
  pub not_older : lease.leader_start ≤ stat.start_time
  pub has_env : reader.read_environ pid ≡ some env
  pub has_token : parse_environ env owner_token_env_key ≡ some token
  pub hash_matches : token_hash token ≡ lease.owner_token_hash

module _ (config_hash : ServerIdentity → String) (token_hash : List ℕ → String) where
  check_member-Member :
      (reader : ProcReader) (lease : Lease) (pid : ℕ)
      → check_member config_hash token_hash reader lease pid ≡ none
      → Member token_hash reader lease pid
  unfolding check_member
  check_member-Member reader lease pid e = elim (Option-cases (reader.read_stat pid)) [
    | inl missing ↦ absurd (ground (arith, e, missing))
    | inr (stat, has_stat) ↦ elim (Option-cases (reader.read_environ pid)) [
      | inl missing ↦ absurd (ground (arith, e, has_stat, missing))
      | inr (env, has_env) ↦ elim (Option-cases (parse_environ env owner_token_env_key)) [
        | inl missing ↦ absurd (ground (arith, e, has_stat, has_env, missing))
        | inr (token, has_token) ↦ record {
          stat = stat;
          env = env;
          token = token;
          has_stat = has_stat;
          in_group = ground (arith, e, has_stat);
          not_older = ground (arith, e, has_stat);
          has_env = has_env;
          has_token = has_token;
          hash_matches = ground (
            arith,
            e,
            has_stat,
            has_env,
            has_token,
            string_eq.beq_iff (token_hash token) lease.owner_token_hash,
          );
        }
      ]
    ]
  ]

  check_member-not_owned :
      (reader : ProcReader) (lease : Lease) (pid : ℕ)
      → check_member config_hash token_hash reader lease pid ≢ some owned
  unfolding check_member
  check_member-not_owned reader lease pid = ground arith

  check_leader-not_owned :
      (reader : ProcReader) (lease : Lease)
      → (check_leader config_hash token_hash reader lease).0 ≢ some owned
  unfolding check_leader
  check_leader-not_owned reader lease = ground arith

  check_leader-not_dead :
      (reader : ProcReader) (lease : Lease)
      → (check_leader config_hash token_hash reader lease).0 ≢ some dead
  unfolding check_leader
  check_leader-not_dead reader lease = ground arith

  check_members-All :
      (reader : ProcReader) (lease : Lease) (leader_live seen : Bool) (members : List ℕ)
      → check_members config_hash token_hash reader lease leader_live seen members ≡ owned
      → All (Member token_hash reader lease) members
  unfolding check_members
  check_members-All reader lease leader_live seen [] e = tt
  check_members-All reader lease leader_live seen (m ∷ members) e =
      elim (Option-cases (check_member config_hash token_hash reader lease m)) [
        | inl passed ↦ (
          check_member-Member reader lease m passed,
          check_members-All reader lease leader_live
              (if nat_beq m lease.leader_pid then true else seen) members
              (ground (arith, e, passed)),
        )
        | inr (status, failed) ↦
            absurd (ground (arith, e, failed, check_member-not_owned reader lease m))
      ]

  check_group-All :
      (reader : ProcReader) (lease : Lease) (leader_live : Bool)
      → check_group config_hash token_hash reader lease leader_live ≡ owned
      → (members : List ℕ) × (reader.list_members lease.leader_pgid ≡ some members)
        × (members ≢ [])
        × All (Member token_hash reader lease) members
  unfolding check_group
  check_group-All reader lease leader_live e =
      elim (Option-cases (reader.list_members lease.leader_pgid)) [
        | inl missing ↦ absurd (ground (arith, e, missing))
        | inr ([], listed) ↦ absurd (ground (arith, e, listed))
        | inr (m ∷ members, listed) ↦ (
          m ∷ members,
          listed,
          ground arith,
          check_members-All reader lease leader_live false (m ∷ members)
              (ground (arith, e, listed)),
        )
      ]

  check_member-not_dead :
      (reader : ProcReader) (lease : Lease) (pid : ℕ)
      → check_member config_hash token_hash reader lease pid ≢ some dead
  unfolding check_member
  check_member-not_dead reader lease pid = ground arith

  check_members-not_dead :
      (reader : ProcReader) (lease : Lease) (leader_live seen : Bool) (members : List ℕ)
      → check_members config_hash token_hash reader lease leader_live seen members ≢ dead
  unfolding check_members
  check_members-not_dead reader lease leader_live seen [] = ground arith
  check_members-not_dead reader lease leader_live seen (m ∷ members) = ground (
    arith,
    check_member-not_dead reader lease m,
    check_members-not_dead reader lease leader_live
        (if nat_beq m lease.leader_pid then true else seen) members,
  )

  check_group-dead :
      (reader : ProcReader) (lease : Lease) (leader_live : Bool)
      → check_group config_hash token_hash reader lease leader_live ≡ dead
      → (reader.list_members lease.leader_pgid ≡ some []) × (leader_live ≡ false)
  unfolding check_group
  check_group-dead reader lease leader_live e =
      elim (Option-cases (reader.list_members lease.leader_pgid)) [
        | inl missing ↦ absurd (ground (arith, e, missing))
        | inr ([], listed) ↦ ground (arith, e, listed)
        | inr (m ∷ members, listed) ↦ absurd (
            ground (
              arith,
              e,
              listed,
              check_members-not_dead reader lease leader_live false (m ∷ members),
            ))
      ]

  check_leader-gone :
      (reader : ProcReader) (lease : Lease)
      → (check_leader config_hash token_hash reader lease).0 ≡ none
      → (check_leader config_hash token_hash reader lease).1 ≡ false
      → reader.read_stat lease.leader_pid ≡ none
  unfolding check_leader
  check_leader-gone reader lease none_found gone =
      elim (Option-cases (reader.read_stat lease.leader_pid)) [
        | inl missing ↦ missing
        | inr (stat, has_stat) ↦ absurd (ground (arith, none_found, gone, has_stat))
      ]

  verify-group :
      (reader : ProcReader) (lease : Lease) (identity : ServerIdentity) (status : GroupStatus)
      → (status ≡ owned) ⊎ (status ≡ dead)
      → verify_group config_hash token_hash (some reader) lease identity ≡ status
      → (reader.read_boot_id ≡ some lease.boot_id)
        × (config_hash identity ≡ lease.config_hash)
        × ((check_leader config_hash token_hash reader lease).0 ≡ none)
        × (check_group config_hash token_hash reader lease
              (check_leader config_hash token_hash reader lease).1
            ≡ status)
  unfolding verify_group
  verify-group reader lease identity status s e = elim (Option-cases reader.read_boot_id) [
    | inl missing ↦ absurd (ground (arith, s, e, missing))
    | inr (boot, has_boot) ↦ ground (
      arith,
      s,
      e,
      has_boot,
      check_leader-not_owned reader lease,
      check_leader-not_dead reader lease,
      string_eq.beq_iff (config_hash identity) lease.config_hash,
      string_eq.beq_iff boot lease.boot_id,
    )
  ]

  -- `owned` is proof. If the verification of a lease answers `owned`, the machine runs since the boot
  -- of the lease, the server's configuration is the lease's, and the lease's process group has
  -- members, every one of which is of the group, no older than the leader was, and carries in its
  -- environment a token with the lease's hash.
  pub owned_sound :
      (reader : ProcReader) (lease : Lease) (identity : ServerIdentity)
      → verify_group config_hash token_hash (some reader) lease identity ≡ owned
      → (reader.read_boot_id ≡ some lease.boot_id)
        × (config_hash identity ≡ lease.config_hash)
        × ((members : List ℕ) × (reader.list_members lease.leader_pgid ≡ some members)
            × (members ≢ [])
            × All (Member token_hash reader lease) members)
  owned_sound reader lease identity e =
      let (boot, config, leader, group) = verify-group reader lease identity owned (inl refl) e in
      (boot, config, check_group-All reader lease _ group)

  -- `dead` is proof. If the verification of a lease answers `dead`, the machine runs since the boot of
  -- the lease, its process group has no member and the leader's process cannot be read.
  pub dead_sound :
      (reader : ProcReader) (lease : Lease) (identity : ServerIdentity)
      → verify_group config_hash token_hash (some reader) lease identity ≡ dead
      → (reader.read_boot_id ≡ some lease.boot_id)
        × (reader.list_members lease.leader_pgid ≡ some [])
        × (reader.read_stat lease.leader_pid ≡ none)
  dead_sound reader lease identity e =
      let (boot, config, leader, group) = verify-group reader lease identity dead (inr refl) e in
      let (none_listed, gone) = check_group-dead reader lease _ group in
      (boot, none_listed, check_leader-gone reader lease leader gone)
