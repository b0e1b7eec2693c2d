-- ===== src/Reachability/Verdict.antt =====
-- internal/reachability/reachability.go: the failure threshold of a server and depth.
use vision_mcp_manager.Base.{
  ℕ, suc, ◌+◌, ◌≡◌, refl, sym, subst, inl, inr, arith, String, Bool, true, false, Option, none,
  some, List, [], ◌∷◌, leb, if◌then◌else◌, string_eq, ==_refl, Option-cases,
}
use vision_mcp_manager.Reachability.Text.{Runes}
use vision_mcp_manager.Reachability.{
  reachable, unreachable, Depth, depth_eq, Disposition, succeeded, failed, inconclusive,
  ServerRecord, Store, time_or_now, record_probe, failure_threshold,
}
use vision_mcp_manager.Reachability.Views.{
  View, view, advance, attempt, records, apply, apply_refines,
}

-- Attempts that end without success, in order, each with its own times and text.
pub record Attempt : Type 0 where
  pub at : ℕ
  pub now : ℕ
  pub error : Runes
  pub failing : Bool

abbrev disposition_of : Attempt → Disposition
disposition_of a = if a.failing then failed else inconclusive

abbrev pub failures : List Attempt → ℕ
failures [] = 0
failures (a ∷ as') = if a.failing then suc (failures as') else failures as'

-- `RecordProbe` for each attempt in turn, at one server and depth.
unfoldable pub record_all : String → Depth → List Attempt → Store → Option Store
unfolding record_probe
record_all name depth [] s = some s
record_all name depth (a ∷ as') s =
    elim (record_probe name depth a.at (disposition_of a) a.error a.now s) [
      | none ↦ none
      | some (s', r) ↦ record_all name depth as' s'
    ]

record_probe-view :
    (name : String) (depth : Depth) (at now : ℕ) (disposition : Disposition) (error : Runes)
    (s s' : Store) (r : ServerRecord)
    → record_probe name depth at disposition error now s ≡ some (s', r)
    → view name depth s' ≡ advance (attempt disposition) (time_or_now at now) (view name depth s)
record_probe-view name depth at now disposition error s s' r e =
    let v =
      (apply_refines (records name depth at disposition error) now s s' r name depth
        (unfold apply in e)).0 in
    rw (==_refl name, ==_refl depth) at v

-- A view with `k` failures in a row since its last success.
abbrev pub AtStreak : ℕ → View → Type 0
AtStreak k v =
    (v.streak ≡ k) × (v.verdict ≡ some (if leb failure_threshold k then unreachable else reachable))

abbrev one : Bool → ℕ
one failing = if failing then 1 else 0

advance-AtStreak :
    (failing : Bool) (k at : ℕ) (v : View)
    → AtStreak k v
    → AtStreak (k + one failing) (advance (attempt (if failing then failed else inconclusive)) at v)
advance-AtStreak true k at v h = ground arith
advance-AtStreak false k at v h = ground arith

record_all-AtStreak :
    (name : String) (depth : Depth) (as' : List Attempt) (k : ℕ) (s s' : Store)
    → record_all name depth as' s ≡ some s'
    → AtStreak k (view name depth s)
    → AtStreak (k + failures as') (view name depth s')
unfolding record_all
record_all-AtStreak name depth [] k s s' e h =
    let same : s ≡ s' = ground (arith, e) in
    subst (λ n. AtStreak n (view name depth s')) (omega arith)
      (subst (λ t. AtStreak k (view name depth t)) same h)
record_all-AtStreak name depth (a ∷ as') k s s' e h =
    elim (Option-cases (record_probe name depth a.at (disposition_of a) a.error a.now s)) [
      | inl stop ↦ absurd (ground (arith, stop, e))
      | inr ((s₁, r), go) ↦
          let v = record_probe-view name depth a.at a.now (disposition_of a) a.error s s₁ r go in
          let h₁ : AtStreak (k + one a.failing) (view name depth s₁) =
            subst (AtStreak (k + one a.failing)) (sym v)
              (advance-AtStreak a.failing k (time_or_now a.at a.now) (view name depth s) h) in
          subst (λ n. AtStreak n (view name depth s')) (ground arith)
            (record_all-AtStreak name depth as' (k + one a.failing) s₁ s' (rw (go, record_all) at e)
              h₁)
    ]

-- The failure threshold. After a success at a server and depth, take any further attempts there,
-- each failing or inconclusive: the streak is the number of those that failed, and the depth is
-- unreachable if they are three or more, and still reachable if they are fewer.
pub threshold :
    (name : String) (depth : Depth) (at now : ℕ) (error : Runes) (as' : List Attempt)
    (s s₁ s₂ : Store) (r : ServerRecord)
    → record_probe name depth at succeeded error now s ≡ some (s₁, r)
    → record_all name depth as' s₁ ≡ some s₂
    → AtStreak (failures as') (view name depth s₂)
threshold name depth at now error as' s s₁ s₂ r e f =
    let v = record_probe-view name depth at now succeeded error s s₁ r e in
    let start : AtStreak 0 (view name depth s₁) = subst (AtStreak 0) (sym v) (refl, refl) in
    subst (λ n. AtStreak n (view name depth s₂)) (omega arith)
      (record_all-AtStreak name depth as' 0 s₁ s₂ f start)
