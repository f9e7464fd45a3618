-- ===== src/Mrp/Declare.antt =====
-- The local declarations of listeners and domains in mrp.c (section 6b). `lite` is
-- `state->avb_lite`, which `s_mrp_lite` follows, and `now` is what `esp_timer_get_time` returns in a
-- call.
pub mod Changes
mod Tests
use esp_avb.Prelude.{
  ℕ, ◌≡◌, Bool, true, false, not, ◌&&◌, ◌||◌, List, [], ◌∷◌, Option, none, some, if◌then◌else◌,
  ◌==◌, map, set,
}
use esp_avb.Mrp.{
  ApplicantState, applicant_vp, applicant_vn, applicant_an, applicant_aa, applicant_qa,
  applicant_la, applicant_ap, applicant_qp, Event, event_new, event_join, SmState, applicant_step,
  sm_reset, tx_none,
}
use esp_avb.Mrp.Lite.{
  declare_event, lite_note_local, withdraw_step, declaring, LiteEntry, lite_entry_due,
  lite_redeclare_sm, applicant_ne,
}
use esp_avb.Mrp.Table.{find_index, modify}
use esp_avb.Mrp.Attributes.{
  TalkerEntry, ListenerEvent, ListenerEntry, listener_find, listener_find_or_insert, DomainEntry,
  domain_find_or_insert,
}
use esp_avb.Mrp.Quarantine.{TalkerInfo, same_info}
use esp_avb.Mrp.Receive.{same_event}

-- The event of a changed declaration type: New in place of Join
unfoldable pub change_event : Bool → Bool → Event → Event
change_event false true event_join = event_new
change_event _ _ ev = ev

-- The states from which AVB Lite sends a changed type from VP
unfoldable pub joined : ApplicantState → Bool
joined applicant_qa = true
joined applicant_aa = true
joined applicant_ap = true
joined applicant_qp = true
joined _ = false

unfoldable pub is_an : ApplicantState → Bool
is_an applicant_an = true
is_an _ = false

-- The end of `mrp_declare_listener` in AVB Lite: the Applicant, the `applicant_before` that the note
-- compares with, and the time of the next send
unfoldable pub lite_change :
    Bool → Bool → ℕ → ApplicantState → ApplicantState → ℕ → ApplicantState × ApplicantState × ℕ
unfolding joined is_an
lite_change lite changed now s before next =
    if lite && changed && joined s
    then (applicant_vp, applicant_qa, next)
    else if lite && changed && is_an s
    then (applicant_vn, before, now)
    else (s, before, next)

-- `mrp_declare_listener` on its entry
unfoldable pub declare_listener_entry : Bool → ℕ → ListenerEvent → ListenerEntry → ListenerEntry
unfolding applicant_step declare_event change_event same_event lite_change lite_note_local
declare_listener_entry lite now decl e =
    let changed = not (same_event e.decl_event decl) in
    let sm = applicant_step e.sm (change_event lite changed (declare_event e.sm.applicant)) in
    let (s, before, next) =
      lite_change lite changed now sm.applicant e.sm.applicant e.lite_next_tx_us in
    let sm' : SmState = record sm { applicant = s } in
    record e { decl_event = decl; sm = sm'; lite_next_tx_us = lite_note_local now sm' before next }

-- `mrp_declare_listener`: the table, and whether the JoinTimer is armed
unfoldable pub declare_listener :
    Bool → ℕ → ListenerEvent → ℕ → List ListenerEntry → List ListenerEntry × Bool
unfolding listener_find_or_insert declare_listener_entry
declare_listener lite now decl id es =
    let (es', at) = listener_find_or_insert es id in
    elim at [
      | none ↦ (es', false)
      | some i ↦ (modify i (declare_listener_entry lite now decl) es', true)
    ]

unfoldable pub withdraw_listener_entry : Bool → ℕ → ListenerEntry → ListenerEntry
unfolding withdraw_step lite_note_local
withdraw_listener_entry lite now e =
    let sm = withdraw_step lite e.sm in
    record e { sm = sm; lite_next_tx_us = lite_note_local now sm e.sm.applicant e.lite_next_tx_us }

-- `mrp_withdraw_listener`
unfoldable pub withdraw_listener : Bool → ℕ → ℕ → List ListenerEntry → List ListenerEntry × Bool
unfolding listener_find withdraw_listener_entry
withdraw_listener lite now id es = elim (listener_find es id) [
  | none ↦ (es, false)
  | some i ↦ (modify i (withdraw_listener_entry lite now) es, true)
]

unfoldable pub declare_domain_entry : ℕ → ℕ → ℕ → DomainEntry → DomainEntry
unfolding applicant_step declare_event
declare_domain_entry class_id priority vid e = record e {
  sr_class_id = class_id;
  sr_class_priority = priority;
  sr_class_vid = vid;
  sm = applicant_step e.sm (declare_event e.sm.applicant);
}

-- `mrp_declare_domain`
unfoldable pub declare_domain : ℕ → ℕ → ℕ → List DomainEntry → List DomainEntry × Bool
unfolding domain_find_or_insert declare_domain_entry
declare_domain class_id priority vid es =
    let (es', at) = domain_find_or_insert es class_id in
    elim at [
      | none ↦ (es', false)
      | some i ↦ (modify i (declare_domain_entry class_id priority vid) es', true)
    ]
