-- ===== src/RecoverySupervisor/SafeMode.antt =====
-- The detection of a reboot loop.
use mesflow_kiosk_runtime_v.Prelude.{
  ℕ, zero, suc, ◌+◌, ◌^◌, ◌<◌, ◌≡◌, ap, ◌∙◌, true, false, arith, bytes_eq, bytes_eq_refl, some, leb,
}
use mesflow_kiosk_runtime_v.RecoverySupervisor.{
  RecoveryCode, RecoverySupervisor, recovery_code_to_string, request_controlled_reboot, restart,
  recovery_supervisor_mark_stable, safe_mode_threshold, or_zero, or_empty,
}

-- `n` reboots for the same fault, with a boot after each.
unfoldable pub reboots : ℕ → RecoveryCode → RecoverySupervisor → RecoverySupervisor
unfolding request_controlled_reboot restart
reboots zero code s = s
reboots (suc n) code s = reboots n code (restart true (request_controlled_reboot true code s))

request-streak :
    (code : RecoveryCode) (s : RecoverySupervisor) (m : ℕ)
    → s.prefs.last_code ≡ some (recovery_code_to_string code)
    → s.prefs.streak ≡ some m
    → m + 1 < 2 ^ 32
    → ((restart true (request_controlled_reboot true code s)).prefs.streak ≡ some (m + 1))
      × ((restart true (request_controlled_reboot true code s)).prefs.last_code
          ≡ some (recovery_code_to_string code))
      × ((restart true (request_controlled_reboot true code s)).safe_mode
          ≡ leb safe_mode_threshold (m + 1))
unfolding request_controlled_reboot restart
request-streak code s m same streak room =
    ground (arith, same, streak, bytes_eq_refl (recovery_code_to_string code))

request-first :
    (code : RecoveryCode) (s : RecoverySupervisor)
    → bytes_eq (or_empty s.prefs.last_code) (recovery_code_to_string code) ≡ false
    → ((restart true (request_controlled_reboot true code s)).prefs.streak ≡ some 1)
      × ((restart true (request_controlled_reboot true code s)).prefs.last_code
          ≡ some (recovery_code_to_string code))
      × ((restart true (request_controlled_reboot true code s)).safe_mode ≡ false)
unfolding request_controlled_reboot restart
request-first code s other = ground (arith, other)

reboots-streak :
    (n m : ℕ) (code : RecoveryCode) (s : RecoverySupervisor)
    → s.prefs.last_code ≡ some (recovery_code_to_string code)
    → s.prefs.streak ≡ some m
    → s.safe_mode ≡ leb safe_mode_threshold m
    → m + n < 2 ^ 32
    → (reboots n code s).safe_mode ≡ leb safe_mode_threshold (m + n)
unfolding reboots
reboots-streak zero m code s same streak safe room =
    safe ∙ ap (leb safe_mode_threshold) (omega arith)
reboots-streak (suc n) m code s same streak safe room =
    let (streak', same', safe') = request-streak code s m same streak (omega arith) in
    reboots-streak n (m + 1) code (restart true (request_controlled_reboot true code s)) same'
      streak' safe' (omega arith)
    ∙ ap (leb safe_mode_threshold) {y = m + suc n} (omega arith)

-- Reboots for one fault, after one for another or none at all, while flash can be opened: the device
-- boots in safe mode exactly from the third of them on, whatever it was in before.
pub reboots-safe_mode :
    (n : ℕ) (code : RecoveryCode) (s : RecoverySupervisor)
    → bytes_eq (or_empty s.prefs.last_code) (recovery_code_to_string code) ≡ false
    → suc n < 2 ^ 32
    → (reboots (suc n) code s).safe_mode ≡ leb safe_mode_threshold (suc n)
unfolding reboots
reboots-safe_mode n code s other room =
    let (streak, same, safe) = request-first code s other in
    reboots-streak n 1 code (restart true (request_controlled_reboot true code s)) same streak safe
      (omega arith)
    ∙ ap (leb safe_mode_threshold) {y = suc n} (omega arith)

-- A boot that stays up clears the streak for the boots to come, once per boot.
pub mark_stable-restart :
    (s : RecoverySupervisor)
    → s.marked_stable_this_boot ≡ false
    → s.same_fault_streak ≡ or_zero s.prefs.streak
    → ((recovery_supervisor_mark_stable true s).same_fault_streak ≡ 0)
      × ((restart true (recovery_supervisor_mark_stable true s)).safe_mode ≡ false)
      × (recovery_supervisor_mark_stable true (recovery_supervisor_mark_stable true s)
          ≡ recovery_supervisor_mark_stable true s)
unfolding recovery_supervisor_mark_stable restart
mark_stable-restart s once loaded = (ground arith, ground arith, ground arith)
