-- ===== src/RecoverySupervisor.antt =====
-- firmware/kiosk_runtime_v2/src/health/recovery_supervisor.{h,cpp}: the ring of the last recovery
-- events, and the streak of reboots for one fault that is kept in flash.
pub mod History
pub mod SafeMode
use mesflow_kiosk_runtime_v.Prelude.{
  ℕ, zero, suc, ◌+◌, ◌-◌, ◌%◌, ◌^◌, Bool, true, false, not, Option, none, some, List, [], ◌∷◌, take,
  ltb, leb, ◌==◌, if◌then◌else◌, bytes_eq, codes,
}

pub data RecoveryCode : Type 0 where
  low_memory journal_pressure task_create_failed network_timeout state_desync ui_stall watchdog
        reboot_loop scanner_reinit keypad_reinit :
      RecoveryCode

unfoldable pub recovery_code_to_string : RecoveryCode → List ℕ
recovery_code_to_string low_memory = codes "RECOVERY_LOW_MEMORY"
recovery_code_to_string journal_pressure = codes "RECOVERY_JOURNAL_PRESSURE"
recovery_code_to_string task_create_failed = codes "RECOVERY_TASK_CREATE_FAILED"
recovery_code_to_string network_timeout = codes "RECOVERY_NETWORK_TIMEOUT"
recovery_code_to_string state_desync = codes "RECOVERY_STATE_DESYNC"
recovery_code_to_string ui_stall = codes "RECOVERY_UI_STALL"
recovery_code_to_string watchdog = codes "RECOVERY_WATCHDOG"
recovery_code_to_string reboot_loop = codes "RECOVERY_REBOOT_LOOP"
recovery_code_to_string scanner_reinit = codes "RECOVERY_SCANNER_REINIT"
recovery_code_to_string keypad_reinit = codes "RECOVERY_KEYPAD_REINIT"

pub record RecoveryEvent : Type 0 where
  pub code : RecoveryCode
  pub detail : List ℕ
  pub uptime_ms : ℕ
  pub journal_pressure : ℕ
  pub memory_free_bytes : ℕ
  pub memory_largest_block_bytes : ℕ

abbrev pub capacity : ℕ
capacity = 8

abbrev pub safe_mode_threshold : ℕ
safe_mode_threshold = 3

-- The array `g_history` with its two counters.
pub record RecoveryHistory : Type 0 where
  pub slots : ℕ → RecoveryEvent
  pub history_count : ℕ
  pub history_next : ℕ

-- `strncpy` of 63 bytes and a final zero: what the array then holds as a string.
abbrev pub truncate_detail : List ℕ → List ℕ
truncate_detail detail = take 63 detail

unfoldable pub record_recovery_event : RecoveryEvent → RecoveryHistory → RecoveryHistory
record_recovery_event e h = record {
  slots = λ i.
      if i == h.history_next then record e { detail = truncate_detail e.detail } else h.slots i;
  history_next = (h.history_next + 1) % capacity;
  history_count = if ltb h.history_count capacity then h.history_count + 1 else h.history_count;
}

unfoldable pub recovery_history_at : RecoveryHistory → ℕ → RecoveryEvent
recovery_history_at h index =
    let start = if ltb h.history_count capacity then 0 else h.history_next in
    h.slots ((start + index) % capacity)

-- The keys of the namespace in flash; `none` where one was never put.
pub record RecoveryPrefs : Type 0 where
  pub streak : Option ℕ
  pub last_code : Option (List ℕ)

-- The module's variables, and what is in flash. `opens` says whether `prefs.begin` succeeds.
pub record RecoverySupervisor : Type 0 where
  pub safe_mode : Bool
  pub same_fault_streak : ℕ
  pub marked_stable_this_boot : Bool
  pub safe_mode_reason : List ℕ
  pub prefs : RecoveryPrefs

abbrev pub or_zero : Option ℕ → ℕ
or_zero none = 0
or_zero (some n) = n

abbrev pub or_empty : Option (List ℕ) → List ℕ
or_empty none = []
or_empty (some s) = s

unfoldable pub recovery_supervisor_init : Bool → RecoverySupervisor → RecoverySupervisor
recovery_supervisor_init opens s =
    let n = or_zero s.prefs.streak in
    if opens
    then record s {
      same_fault_streak = n;
      safe_mode_reason = or_empty s.prefs.last_code;
      safe_mode = leb safe_mode_threshold n;
    }
    else record s { same_fault_streak = 0; safe_mode = false }

unfoldable pub recovery_supervisor_mark_stable : Bool → RecoverySupervisor → RecoverySupervisor
recovery_supervisor_mark_stable opens s =
    if s.marked_stable_this_boot
    then s
    else if s.same_fault_streak == 0
    then record s { marked_stable_this_boot = true }
    else record s {
      marked_stable_this_boot = true;
      prefs = if opens then record s.prefs { streak = some 0 } else s.prefs;
      same_fault_streak = 0;
      safe_mode = false;
    }

-- Up to the call of `ESP.restart`.
unfoldable pub request_controlled_reboot :
    Bool → RecoveryCode → RecoverySupervisor → RecoverySupervisor
unfolding bytes_eq recovery_code_to_string
request_controlled_reboot opens code s =
    let this_code = recovery_code_to_string code in
    let n =
      if bytes_eq (or_empty s.prefs.last_code) this_code
      then (or_zero s.prefs.streak + 1) % 2 ^ 32
      else 1 in
    if opens
    then record s {
      prefs = record { streak = some n; last_code = some this_code };
      same_fault_streak = n;
      safe_mode = leb safe_mode_threshold n;
    }
    else s

-- A restart: the variables get their initial values, and `recovery_supervisor_init` runs.
unfoldable pub restart : Bool → RecoverySupervisor → RecoverySupervisor
unfolding recovery_supervisor_init
restart opens s = recovery_supervisor_init opens (record {
  safe_mode = false;
  same_fault_streak = 0;
  marked_stable_this_boot = false;
  safe_mode_reason = [];
  prefs = s.prefs;
})
