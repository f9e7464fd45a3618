-- ===== src/Mrp/Declare/Tests.antt =====
-- Instances of what is proved of the local declarations.
use esp_avb.Prelude.{◌≡◌, refl, false, true}
use esp_avb.Mrp.{applicant_qa, sm_reset}
use esp_avb.Mrp.Attributes.{ListenerEntry, asking_failed, ready, fresh_listener}
use esp_avb.Mrp.Receive.{same_event}
use esp_avb.Mrp.Declare.{declare_listener_entry}
use esp_avb.Mrp.Declare.Changes.{declare_listener_entry-lem}

abbrev quiet_listener : ListenerEntry
quiet_listener = record (fresh_listener 7) {
  decl_event = asking_failed;
  sm = record sm_reset { applicant = applicant_qa };
}

declare_listener_entry-lem_example :
    (declare_listener_entry false 5 ready quiet_listener).decl_event ≡ ready
unfolding same_event fresh_listener
declare_listener_entry-lem_example = (declare_listener_entry-lem 5 ready quiet_listener true refl).0
