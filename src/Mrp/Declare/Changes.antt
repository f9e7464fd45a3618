-- ===== src/Mrp/Declare/Changes.antt =====
-- A changed listener declaration goes out at the next flush.
use esp_avb.Prelude.{ℕ, ◌≡◌, ◌⊎◌, refl, arith, Bool, true, false}
use esp_avb.Mrp.{applicant_vn, applicant_vp, tx_new, applicant_next}
use esp_avb.Mrp.Lite.{will_send}
use esp_avb.Mrp.Attributes.{ListenerEvent, ListenerEntry}
use esp_avb.Mrp.Receive.{same_event}
use esp_avb.Mrp.Declare.{declare_listener_entry}
use esp_avb.Mrp.Flush.{stepped}

-- A listener declaration whose type changes: outside AVB Lite it waits as New, from every state of
-- the Applicant, and the next flush sends New; in AVB Lite the Applicant will send from every state,
-- and its next send is due at once unless one was owed already (in VP or VN).
pub declare_listener_entry-lem :
    (now : ℕ) (decl : ListenerEvent) (e : ListenerEntry) (leaveall : Bool)
    → same_event e.decl_event decl ≡ false
    → let out = declare_listener_entry false now decl e in
      let lite = declare_listener_entry true now decl e in
      (out.decl_event ≡ decl)
      × (out.sm.applicant ≡ applicant_vn)
      × ((stepped leaveall out.sm).pending_tx ≡ tx_new)
      × (lite.decl_event ≡ decl)
      × (will_send lite.sm.applicant ≡ true)
      × ((e.sm.applicant ≡ applicant_vp)
          ⊎ (e.sm.applicant ≡ applicant_vn)
          ⊎ (lite.lite_next_tx_us ≡ now))
unfolding declare_listener_entry applicant_next stepped will_send
declare_listener_entry-lem now decl e leaveall h =
    (refl, ground arith, ground arith, refl, ground arith, ground arith)
