-- ===== src/Health/Runs.antt =====
-- dashboard/app/health.py: rows of failed and of passed checks.
use opnsense_hub.Base.{
  ℕ, zero, suc, ◌+◌, ◌≡◌, ◌⊎◌, Bool, true, false, List, [], ◌∷◌, arith, text_beq_iff, leb,
  if◌then◌else◌,
}
use opnsense_hub.Health.{
  HealthThresholds, HealthState, next_health_state, observe, online, warning, offline,
}

-- `n` checks with one outcome.
abbrev pub row : ℕ → Bool → List Bool
row zero b = []
row (suc n) b = b ∷ row n b

-- After a row of failed checks the status depends on the count of misses alone: it is "offline"
-- from the critical threshold on, "warning" from the warning threshold on, and unchanged below.
pub observe-misses :
    (t : HealthThresholds) (n : ℕ) (s : HealthState)
    → (observe t (row (suc n) false) s).status ≡ (
        if leb t.critical_misses (s.missed_checks + suc n)
        then offline
        else if leb t.warning_misses (s.missed_checks + suc n)
        then warning
        else s.status)
unfolding observe next_health_state
observe-misses t zero s = ground arith
observe-misses t (suc n) s = ground (arith, observe-misses t n (next_health_state s false t))

observe-online :
    (t : HealthThresholds) (n : ℕ) (s : HealthState)
    → s.status ≡ online
    → (observe t (row n true) s).status ≡ online
unfolding observe next_health_state
observe-online t zero s h = h
observe-online t (suc n) s h = observe-online t n (next_health_state s true t) (ground arith)

-- A firewall that is offline comes back online with exactly the check that brings its count of
-- successes to the critical recovery threshold, and it is offline until then.
pub observe-recovery :
    (t : HealthThresholds) (n : ℕ) (s : HealthState)
    → s.status ≡ offline
    → (observe t (row (suc n) true) s).status
      ≡ (if leb t.critical_recovery_successes (s.success_checks + suc n) then online else offline)
unfolding observe next_health_state
observe-recovery t zero s h = ground (arith, text_beq_iff s.status offline)
observe-recovery t (suc n) s h = ground (
  arith,
  text_beq_iff s.status offline,
  observe-recovery t n (next_health_state s true t),
  observe-online t (suc n) (next_health_state s true t),
)

-- Misses and successes are never counted at once.
abbrev pub IsExclusive : HealthState → Type 0
IsExclusive s = (s.missed_checks ≡ 0) ⊎ (s.success_checks ≡ 0)

-- After any checks from a state in which one of the two counts is zero, one of them is zero.
pub observe-IsExclusive :
    (t : HealthThresholds) (checks : List Bool) (s : HealthState)
    → IsExclusive s
    → IsExclusive (observe t checks s)
unfolding observe next_health_state
observe-IsExclusive t [] s h = h
observe-IsExclusive t (true ∷ checks) s h =
    observe-IsExclusive t checks (next_health_state s true t) (ground arith)
observe-IsExclusive t (false ∷ checks) s h =
    observe-IsExclusive t checks (next_health_state s false t) (ground arith)
