-- ===== src/Mrp/Exchange.antt =====
-- One participant's transmission (`mrp_tx_flush_port`, `mvrp_tx_emit`) and what it does to its peer.
use esp_avb.Prelude.{
  ℕ, ◌+◌, ◌≡◌, ◌≢◌, ◌↔◌, ◌⊎◌, inl, inr, arith, Bool, true, false, ◌&&◌, List, [], ◌∷◌, Option, none,
  some,
}
use esp_avb.Mrp.{
  applicant_vo, applicant_vn, applicant_an, applicant_aa, applicant_qa, applicant_ap, applicant_qp,
  registrar_in, registrar_lv, Event, event_r_lv, event_r_la, event_new, event_lv, event_tx,
  event_tx_la, event_periodic, tx_none, SmState, applicant_next, applicant_step, registrar_next,
  registrar_step, sm_step, leave_timer_len_us,
}
use esp_avb.Mrp.Packed.{int_to_3pe, three_pe_to_int, event_of_3pe, resolve_3pe, receive_3pe}
use esp_avb.Mrp.Trace.{run}
use esp_avb.Mrp.Lite.{declaring, will_send, withdraw_step, declare_event}

-- The event octet of an MRPDU: the resolved event and two zeros.
unfoldable pub packed : Option ℕ → Option ℕ
packed none = none
packed (some pe) = some (int_to_3pe pe 0 0)

-- One valid entry in the flush: tx! or txLA!, the octet that goes out, if any, and the pending
-- action cleared.
unfoldable pub flush : Event → SmState → SmState × Option ℕ
unfolding applicant_step packed
flush tx_ev sm =
    let sm' = applicant_step sm tx_ev in
    (record sm' { pending_tx = tx_none }, packed (resolve_3pe sm'.pending_tx sm'.registrar))

-- `tx_ev` of `mrp_tx_flush_port`, by `mrp_leaveall_tx_pending`
unfoldable pub tx_event : Bool → Event
tx_event true = event_tx_la
tx_event false = event_tx

-- What a peer does with the octet, if one comes.
unfoldable pub receive : ℕ → SmState → Option ℕ → SmState
receive now sm none = sm
receive now sm (some octet) = receive_3pe now sm octet

-- `mrp_applicant_will_send` tells the states that send: an entry with nothing pending puts an
-- octet on the wire at tx! exactly when its state is one of them.
pub flush-will_send :
    (sm : SmState)
    → sm.pending_tx ≡ tx_none
    → ((flush event_tx sm).1 ≢ none) ↔ (will_send sm.applicant ≡ true)
unfolding flush applicant_next will_send resolve_3pe
flush-will_send sm h = ground arith

-- A transmission of an attribute that is declared registers it at the peer: whatever the peer's
-- state and the kind of transmission, if a declaring Applicant with nothing pending sends, the
-- peer's Registrar is then in IN, with its LeaveTimer stopped.
pub flush-registers :
    (la : Bool) (sm peer : SmState) (now : ℕ)
    → sm.pending_tx ≡ tx_none
    → declaring sm.applicant ≡ true
    → (flush (tx_event la) sm).1 ≢ none
    → let peer' = receive now peer (flush (tx_event la) sm).1 in
      (peer'.registrar ≡ registrar_in) × (peer'.leave_timer_us ≡ 0)
unfolding flush applicant_next declaring resolve_3pe receive receive_3pe int_to_3pe three_pe_to_int
    event_of_3pe tx_event sm_step registrar_step registrar_next
flush-registers true sm peer now p d s = ground arith
flush-registers false sm peer now p d s = ground arith

-- A withdrawal after the declaration was sent reaches the peer: Lv! in AA or QA, then tx!, puts
-- the peer's registration into LV for LeaveTime, leaves the Applicant in VO, and a second tx! sends
-- nothing. In AB Lite the withdrawal does so from VN and AN too.
pub withdraw-leaves :
    (lite : Bool) (sm peer : SmState) (now : ℕ)
    → sm.pending_tx ≡ tx_none
    → (sm.applicant ≡ applicant_aa)
      ⊎ (sm.applicant ≡ applicant_qa)
      ⊎ ((lite ≡ true) × ((sm.applicant ≡ applicant_vn) ⊎ (sm.applicant ≡ applicant_an)))
    → peer.registrar ≡ registrar_in
    → let (sm', octet) = flush event_tx (withdraw_step lite sm) in
      let peer' = receive now peer octet in
      (peer'.registrar ≡ registrar_lv)
      × (peer'.leave_timer_us ≡ now + leave_timer_len_us)
      × (sm'.applicant ≡ applicant_vo)
      × ((flush event_tx sm').1 ≡ none)
unfolding flush applicant_next withdraw_step resolve_3pe receive receive_3pe int_to_3pe
    three_pe_to_int event_of_3pe sm_step registrar_step registrar_next
withdraw-leaves lite sm peer now p (inl s) r = ground arith
withdraw-leaves lite sm peer now p (inr s) r = ground arith

-- An actively declared attribute is heard again after each periodic! and tx!: the octet goes out
-- from every declaring state but AP and QP.
pub periodic-sends :
    (sm : SmState)
    → sm.pending_tx ≡ tx_none
    → declaring sm.applicant ≡ true
    → sm.applicant ≢ applicant_ap
    → sm.applicant ≢ applicant_qp
    → (flush event_tx (applicant_step sm event_periodic)).1 ≢ none
unfolding flush applicant_next declaring resolve_3pe applicant_step
periodic-sends sm p d a q = ground arith

-- The events that come to a passive Applicant: everything but a local New! or Lv!, and a peer's
-- Leave or LeaveAll.
unfoldable pub keeps_passive : Event → Bool
keeps_passive event_new = false
keeps_passive event_lv = false
keeps_passive event_r_lv = false
keeps_passive event_r_la = false
keeps_passive _ = true

unfoldable pub IsPassive : SmState → Type 0
IsPassive sm =
    ((sm.applicant ≡ applicant_ap) ⊎ (sm.applicant ≡ applicant_qp)) × (sm.pending_tx ≡ tx_none)

IsPassive-step :
    (sm : SmState) (ev : Event)
    → IsPassive sm
    → keeps_passive ev ≡ true
    → IsPassive (applicant_step sm ev) × ((flush event_tx (applicant_step sm ev)).1 ≡ none)
unfolding IsPassive keeps_passive applicant_step applicant_next flush resolve_3pe
IsPassive-step sm ev h k = ground arith

unfoldable pub all_keep_passive : List Event → Bool
all_keep_passive [] = true
all_keep_passive (ev ∷ evs) = keeps_passive ev && all_keep_passive evs

IsPassive-run :
    (evs : List Event) (sm : SmState)
    → IsPassive sm
    → all_keep_passive evs ≡ true
    → IsPassive (run sm evs)
unfolding run all_keep_passive
IsPassive-run [] sm h k = h
IsPassive-run (ev ∷ evs) sm h k =
    IsPassive-run evs (applicant_step sm ev) (IsPassive-step sm ev h (ground arith)).0
      (ground arith)

-- A declaration in AP or QP is never put on the wire by the timers: after any number of Join!,
-- periodic!, tx! and txLA! events, and of peer events other than Lv and LeaveAll, the next tx!
-- sends nothing.
pub passive-silent :
    (sm : SmState) (evs : List Event)
    → IsPassive sm
    → all_keep_passive evs ≡ true
    → (flush event_tx (run sm evs)).1 ≡ none
unfolding IsPassive flush applicant_next resolve_3pe
passive-silent sm evs h k = ground (arith, IsPassive-run evs sm h k)

-- New! is sent as New at the next two tx!, from any state with nothing pending, and the third tx!
-- sends nothing.
pub new-sent_twice :
    (sm : SmState)
    → sm.pending_tx ≡ tx_none
    → let first = flush event_tx (applicant_step sm event_new) in
      let second = flush event_tx first.0 in
      (first.1 ≡ some (int_to_3pe 0 0 0))
      × (second.1 ≡ some (int_to_3pe 0 0 0))
      × ((flush event_tx second.0).1 ≡ none)
unfolding flush applicant_next resolve_3pe applicant_step
new-sent_twice sm p = ground arith

-- A declaration by `mrp_declare_event` leaves the Applicant declaring and the withdrawal of
-- `mrp_withdraw_step`, with AVB Lite or without, leaves it not declaring, from every state.
pub declare_withdraw :
    (sm : SmState) (lite : Bool)
    → (declaring (applicant_step sm (declare_event sm.applicant)).applicant ≡ true)
      × (declaring (withdraw_step lite sm).applicant ≡ false)
unfolding withdraw_step declare_event declaring applicant_step applicant_next
declare_withdraw sm lite = ground arith
