-- ===== src/Mcp/Lease/Requests.antt =====
-- internal/mcp/lease.go: requests in flight, and the guards that end them.
use vision_mcp_manager.Base.{
  ℕ, suc, ◌+◌, ◌-◌, ◌<◌, String, ◌≡◌, refl, ◌∙◌, ◌≢◌, ◌⊎◌, Bool, true, false, none, some, arith,
  lookup, string_eq, Option-branches, ok, lookup-insert_self,
}
use vision_mcp_manager.Mcp.Lease.{
  Lease, LeaseManager, active, Guard, store, begun, begin_request, finished, settle, complete,
  in_flight, commit, admit, new_lease, touch,
}
use vision_mcp_manager.Mcp.Lease.History.{finalize_close, close_lease}
use vision_mcp_manager.Mcp.Lease.Sweep.{is_due}
use vision_mcp_manager.Mcp.Lease.Expiry.{is_due-rules}
use vision_mcp_manager.Mcp.Lease.Invariant.{Inv, lookup-LeaseOk}
use vision_mcp_manager.Mcp.Lease.Ledger.{record_closed-total}

abbrev pub guard_of : String → Bool → Lease → Guard
guard_of sid application l = record {
  session_id = sid;
  address = l.address;
  application_activity = application;
  done = false;
}

-- What a request that was let in did.
begin_request-cases :
    (sid : String) (application : Bool) (now : ℕ) (m m₁ : LeaseManager) (g : Guard)
    → begin_request sid application now m ≡ (m₁, ok g)
    → (l : Lease) × (lookup sid m.leases ≡ some l)
      × (l.state ≡ active)
      × (m₁ ≡ store sid (begun m.disconnect_grace application now l) m)
      × (g ≡ guard_of sid application l)
unfolding begin_request
begin_request-cases sid application now m m₁ g e = ground arith

in_flight-found :
    (sid : String) (m : LeaseManager) (l : Lease)
    → lookup sid m.leases ≡ some l
    → in_flight sid m ≡ l.in_flight
unfolding in_flight
in_flight-found sid m l e = rw (e, in_flight)

pub lookup-store :
    (sid : String) (l : Lease) (m : LeaseManager) → lookup sid (store sid l m).leases ≡ some l
lookup-store sid l m = lookup-insert_self sid l m.leases

pub begun-in_flight :
    (grace : ℕ) (application : Bool) (now : ℕ) (l : Lease)
    → ((begun grace application now l).in_flight ≡ suc l.in_flight)
      × ((begun grace application now l).address ≡ l.address)
unfolding begun
begun-in_flight grace application now l = ground arith

pub finished-in_flight :
    (grace : ℕ) (application : Bool) (now : ℕ) (l : Lease)
    → (finished grace application now l).in_flight ≡ l.in_flight - 1
unfolding finished
finished-in_flight grace application now l = ground arith

-- A live guard of the lease that stands under its identifier.
settle_live :
    (g : Guard) (now : ℕ) (m : LeaseManager) (l : Lease)
    → lookup g.session_id m.leases ≡ some l
    → l.address ≡ g.address
    → 0 < l.in_flight
    → settle g now m
      ≡ store g.session_id (finished m.disconnect_grace g.application_activity now l) m
unfolding settle
settle_live g now m l e a h = rw (e, settle) (ground arith)

-- What a request and its completion leave of a lease.
abbrev pub served : ℕ → Bool → ℕ → ℕ → Lease → Lease
served grace application now later l =
    finished grace application later (begun grace application now l)

settle-begun :
    (sid : String) (application : Bool) (now later : ℕ) (m : LeaseManager) (l : Lease)
    → let l₁ = begun m.disconnect_grace application now l in
      settle (guard_of sid application l) later (store sid l₁ m)
      ≡ store sid (served m.disconnect_grace application now later l) (store sid l₁ m)
settle-begun sid application now later m l =
    let l₁ = begun m.disconnect_grace application now l in
    let more = begun-in_flight m.disconnect_grace application now l in
    settle_live (guard_of sid application l) later (store sid l₁ m) l₁ (lookup-store sid l₁ m)
      more.1 (omega (arith, more.0))

pub begin-complete :
    (sid : String) (application : Bool) (now later : ℕ) (m : LeaseManager) (l : Lease)
    → (complete
        (guard_of sid application l)
        later
        (store sid (begun m.disconnect_grace application now l) m)).0
      ≡ store sid
          (served m.disconnect_grace application now later l)
          (store sid (begun m.disconnect_grace application now l) m)
unfolding complete
begin-complete = settle-begun

-- A request that is let in adds one to the session's count of requests in flight, and its
-- completion, at any later time, takes it away again; a second use of the completed guard, in any
-- state of the manager, changes nothing.
pub request_round_trip :
    (sid : String) (application : Bool) (now later : ℕ) (m m₁ : LeaseManager) (g : Guard)
    → begin_request sid application now m ≡ (m₁, ok g)
    → (in_flight sid m₁ ≡ suc (in_flight sid m))
      × (in_flight sid (complete g later m₁).0 ≡ in_flight sid m)
      × ((again : ℕ) (m' : LeaseManager)
          → complete (complete g later m₁).1 again m' ≡ (m', (complete g later m₁).1))
unfolding complete
request_round_trip sid application now later m m₁ g e =
    let (l, there, live, m₁-eq, g-eq) = begin_request-cases sid application now m m₁ g e in
    let grace = m.disconnect_grace in
    let l₁ = begun grace application now l in
    let l₂ = served grace application now later l in
    let before = in_flight-found sid m l there in
    let during = in_flight-found sid (store sid l₁ m) l₁ (lookup-store sid l₁ m) in
    let after =
      in_flight-found sid (store sid l₂ (store sid l₁ m)) l₂
        (lookup-store sid l₂ (store sid l₁ m)) in
    let more = begun-in_flight grace application now l in
    rw (m₁-eq, g-eq)
      (
        omega (arith, before, during, more.0),
        rw (settle-begun sid application now later m l)
            (omega (arith, before, after, more.0, finished-in_flight grace application later l₁)),
        λ again m'. refl,
      )

served-is_due :
    (m : LeaseManager) (now later t : ℕ) (l : Lease)
    → (m.idle_timeout ≡ 0) ⊎ (t < later + m.idle_timeout)
    → ((served m.disconnect_grace true now later l).disconnect_deadline ≡ 0)
      ⊎ (t < later + m.disconnect_grace)
    → is_due m t (served m.disconnect_grace true now later l) ≡ false
unfolding finished begun touch
served-is_due m now later t l h k =
    ground (arith, is_due-rules m t (served m.disconnect_grace true now later l))

-- Application traffic defers expiry: when an application request of a session has completed at the
-- time `later`, the sweep does not find the lease due at any time `t` that lies before `later` plus
-- the idle timeout, if there is one, and before `later` plus the disconnect grace period, if one
-- is running for the lease.
pub activity_defers_expiry :
    (sid : String) (now later t : ℕ) (m m₁ : LeaseManager) (g : Guard) (l : Lease)
    → begin_request sid true now m ≡ (m₁, ok g)
    → lookup sid (complete g later m₁).0.leases ≡ some l
    → (m.idle_timeout ≡ 0) ⊎ (t < later + m.idle_timeout)
    → (l.disconnect_deadline ≡ 0) ⊎ (t < later + m.disconnect_grace)
    → is_due (complete g later m₁).0 t l ≡ false
activity_defers_expiry sid now later t m m₁ g l e f h k =
    let (l₀, there, live, m₁-eq, g-eq) = begin_request-cases sid true now m m₁ g e in
    let l₁ = begun m.disconnect_grace true now l₀ in
    let l₂ = served m.disconnect_grace true now later l₀ in
    let m₂ = store sid l₂ (store sid l₁ m) in
    let done : (complete g later m₁).0 ≡ m₂ =
      rw (m₁-eq, g-eq) (begin-complete sid true now later m l₀) in
    let same : l ≡ l₂ = ground (arith, rw done at f, lookup-store sid l₂ (store sid l₁ m)) in
    let k' : (l₂.disconnect_deadline ≡ 0) ⊎ (t < later + m.disconnect_grace) = rw (← same) k in
    rw (done, same) (served-is_due m₂ now later t l₀ h k')

admit-next_address :
    (digest : String → String) (token : ℕ) (sid : String) (now : ℕ) (m m₂ : LeaseManager)
    → commit digest token sid now m ≡ (m₂, none)
    → (m₂ ≡ admit digest token sid now m) × (lookup sid m.leases ≡ none)
unfolding commit
admit-next_address digest token sid now m m₂ e = ground arith

lookup-admit :
    (digest : String → String) (token : ℕ) (sid : String) (now : ℕ) (m : LeaseManager)
    → lookup sid (admit digest token sid now m).leases
      ≡ some (new_lease digest m.next_address sid now)
unfolding admit
lookup-admit digest token sid now m = lookup-insert_self sid _ m.leases

new_lease-address :
    (digest : String → String) (address : ℕ) (sid : String) (now : ℕ)
    → (new_lease digest address sid now).address ≡ address
unfolding new_lease
new_lease-address digest address sid now = refl

finalize_close-next_address :
    (sid : String) (now : ℕ) (m : LeaseManager)
    → (finalize_close sid now m).0.next_address ≡ m.next_address
unfolding finalize_close close_lease
finalize_close-next_address sid now m =
    Option-branches (λ (r : LeaseManager × Bool). r.0.next_address ≡ m.next_address)
      (lookup sid m.leases) _ _ refl λ l e. (record_closed-total l l.reason now m).1

settle_stale :
    (g : Guard) (now : ℕ) (m : LeaseManager) (l : Lease)
    → lookup g.session_id m.leases ≡ some l
    → l.address ≢ g.address
    → settle g now m ≡ m
unfolding settle
settle_stale g now m l e a = rw (e, settle) (ground arith)

-- A guard outlives its lease harmlessly: if the lease is closed while the request runs, and the
-- identifier is later admitted anew, completing the old guard leaves the new lease alone.
pub stale_guard :
    (digest : String → String) (sid : String) (application : Bool) (token now closing later end : ℕ)
    (m m₁ m₂ : LeaseManager) (g : Guard)
    → Inv m
    → begin_request sid application now m ≡ (m₁, ok g)
    → commit digest token sid later (finalize_close sid closing m₁).0 ≡ (m₂, none)
    → (complete g end m₂).0 ≡ m₂
unfolding complete
stale_guard digest sid application token now closing later end m m₁ m₂ g v e f =
    let (l, there, live, m₁-eq, g-eq) = begin_request-cases sid application now m m₁ g e in
    let m' = (finalize_close sid closing m₁).0 in
    let (m₂-eq, _) = admit-next_address digest token sid later m' m₂ f in
    let l' = new_lease digest m'.next_address sid later in
    let at_new : lookup sid m₂.leases ≡ some l' =
      rw m₂-eq (lookup-admit digest token sid later m') in
    let older : l.address < m.next_address = (lookup-LeaseOk m sid v there).allocated in
    let newer : m'.next_address ≡ m.next_address =
      finalize_close-next_address sid closing m₁ ∙ rw m₁-eq in
    rw g-eq (
      settle_stale (guard_of sid application l) end m₂ l' at_new
        (omega (arith, older, newer, new_lease-address digest m'.next_address sid later)))
