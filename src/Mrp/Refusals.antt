-- ===== src/Mrp/Refusals.antt =====
-- The AVB Lite tables of a port in mrp.c (section 6d): the refusals of single listeners and the
-- redeclaration of all that a node declares. `lite` is `s_mrp_lite`, and `now` is what
-- `esp_timer_get_time` returns in a call.
pub mod Settled
mod Tests
use esp_avb.Prelude.{
  ℕ, ◌≡◌, Bool, true, false, not, ◌&&◌, ◌||◌, List, [], ◌∷◌, Option, none, some, if◌then◌else◌,
  ◌==◌, map, set,
}
use esp_avb.Mrp.{
  ApplicantState, applicant_vp, applicant_vn, applicant_an, applicant_aa, applicant_qa,
  applicant_la, applicant_ap, applicant_qp, Event, event_new, event_join, SmState, applicant_step,
  sm_reset, tx_none,
}
use esp_avb.Mrp.Lite.{
  declare_event, lite_note_local, withdraw_step, declaring, LiteEntry, lite_entry_due,
  lite_redeclare_sm, applicant_ne,
}
use esp_avb.Mrp.Table.{find_index, modify}
use esp_avb.Mrp.Attributes.{
  TalkerEntry, ListenerEvent, ListenerEntry, listener_find, listener_find_or_insert, DomainEntry,
  domain_find_or_insert,
}
use esp_avb.Mrp.Quarantine.{TalkerInfo, same_info}
use esp_avb.Mrp.Receive.{same_event}

unfoldable pub is_vn : ApplicantState → Bool
is_vn applicant_vn = true
is_vn _ = false

-- `msrp_lite_refusal_entry_t`: a Talker Failed declaration to one listener
pub record RefusalEntry : Type 0 where
  pub valid : Bool
  pub listener_mac : ℕ
  pub value : TalkerInfo
  pub failure_code : ℕ
  pub failure_bridge_id : ℕ
  pub sm : SmState
  pub next_tx_us : ℕ

unfoldable pub is_refusal : ℕ → ℕ → RefusalEntry → Bool
is_refusal id mac r = r.valid && r.value.stream_id == id && r.listener_mac == mac

-- `mrp_lite_refusal_find`
unfoldable pub lite_refusal_find : List RefusalEntry → ℕ → ℕ → Option ℕ
unfolding is_refusal find_index
lite_refusal_find rs id mac = find_index (is_refusal id mac) rs

-- Whether an address is among those refused
unfoldable pub refused : List (ℕ × ℕ) → ℕ → Bool
refused [] mac = false
refused ((m, code) ∷ ms) mac = mac == m || refused ms mac

-- The first loop of `mrp_lite_sync_refusals` on an entry
unfoldable pub sync_withdraw : Bool → ℕ → ℕ → List (ℕ × ℕ) → RefusalEntry → RefusalEntry
unfolding refused declaring withdraw_step lite_note_local
sync_withdraw lite now id macs r =
    if not r.valid || not (r.value.stream_id == id)
    then r
    else if refused macs r.listener_mac || not (declaring r.sm.applicant)
    then r
    else let sm = withdraw_step lite r.sm in
      record r { sm = sm; next_tx_us = lite_note_local now sm r.sm.applicant r.next_tx_us }

-- The declaration at the end of the second loop
unfoldable pub refuse : ℕ → RefusalEntry → RefusalEntry
unfolding applicant_step declare_event applicant_ne is_vn
refuse now r =
    let sm = applicant_step r.sm (declare_event r.sm.applicant) in
    record r {
      sm = sm;
      next_tx_us =
          if applicant_ne sm.applicant r.sm.applicant || is_vn sm.applicant
          then now
          else r.next_tx_us;
    }

unfoldable pub fresh_refusal : ℕ → TalkerInfo → ℕ → ℕ → RefusalEntry
unfolding sm_reset
fresh_refusal mac value code bridge_id = record {
  valid = true;
  listener_mac = mac;
  value = value;
  failure_code = code;
  failure_bridge_id = bridge_id;
  sm = sm_reset;
  next_tx_us = 0;
}

unfoldable pub refusal_unused : RefusalEntry → Bool
refusal_unused r = not r.valid

-- A refusal that was there: a changed one is a new declaration, an unchanged one that is declared
-- stays as it is.
unfoldable pub refuse_again : ℕ → TalkerInfo → ℕ → ℕ → RefusalEntry → RefusalEntry
unfolding same_info refuse declaring sm_reset
refuse_again now value code bridge_id r =
    if not (same_info r.value value) || not (r.failure_code == code)
    then refuse now (record r {
      value = value;
      failure_code = code;
      failure_bridge_id = bridge_id;
      sm = sm_reset;
    })
    else if declaring r.sm.applicant
    then r
    else refuse now r

-- One round of the second loop
unfoldable pub sync_refuse : ℕ → TalkerInfo → ℕ → List RefusalEntry → ℕ × ℕ → List RefusalEntry
sync_refuse now value bridge_id rs (mac, code) = elim (lite_refusal_find rs value.stream_id mac) [
  | some i ↦ modify i (refuse_again now value code bridge_id) rs
  | none ↦ elim (find_index refusal_unused rs) [
    | none ↦ rs
    | some i ↦ set rs i (refuse now (fresh_refusal mac value code bridge_id))
  ]
]

unfoldable pub sync_all : ℕ → TalkerInfo → ℕ → List RefusalEntry → List (ℕ × ℕ) → List RefusalEntry
unfolding sync_refuse
sync_all now value bridge_id rs [] = rs
sync_all now value bridge_id rs (m ∷ ms) =
    sync_all now value bridge_id (sync_refuse now value bridge_id rs m) ms

-- `mrp_lite_sync_refusals`, with the built value, the addresses refused and their failure codes
unfoldable pub lite_sync_refusals :
    Bool → ℕ → TalkerInfo → ℕ → List (ℕ × ℕ) → List RefusalEntry → List RefusalEntry
unfolding sync_withdraw sync_all
lite_sync_refusals lite now value bridge_id macs rs =
    sync_all now value bridge_id (map (sync_withdraw lite now value.stream_id macs) rs) macs

-- The three tables that `mrp_lite_redeclare_all` walks; the refusals are port 0's.
unfoldable pub redeclare_talker : ℕ → TalkerEntry → TalkerEntry
unfolding lite_redeclare_sm
redeclare_talker now e =
    if e.valid && e.locally_originated
    then (let r = lite_redeclare_sm (record { sm = e.sm; next_tx_us = e.lite_next_tx_us }) now in
        record e { sm = r.sm; lite_next_tx_us = r.next_tx_us })
    else e

unfoldable pub redeclare_listener : ℕ → ListenerEntry → ListenerEntry
unfolding lite_redeclare_sm
redeclare_listener now e =
    if e.valid
    then (let r = lite_redeclare_sm (record { sm = e.sm; next_tx_us = e.lite_next_tx_us }) now in
        record e { sm = r.sm; lite_next_tx_us = r.next_tx_us })
    else e

unfoldable pub redeclare_refusal : ℕ → RefusalEntry → RefusalEntry
unfolding lite_redeclare_sm
redeclare_refusal now e =
    if e.valid
    then (let r = lite_redeclare_sm (record { sm = e.sm; next_tx_us = e.next_tx_us }) now in
        record e { sm = r.sm; next_tx_us = r.next_tx_us })
    else e

-- The MSRP declarations of a port, with the refusals
pub record LiteTables : Type 0 where
  pub talkers : List TalkerEntry
  pub listeners : List ListenerEntry
  pub refusals : List RefusalEntry

-- `mrp_lite_redeclare_all`
unfoldable pub lite_redeclare_all : ℕ → ℕ → LiteTables → LiteTables
unfolding redeclare_talker redeclare_listener redeclare_refusal
lite_redeclare_all port now t = record {
  talkers = map (redeclare_talker now) t.talkers;
  listeners = map (redeclare_listener now) t.listeners;
  refusals = if port == 0 then map (redeclare_refusal now) t.refusals else t.refusals;
}
