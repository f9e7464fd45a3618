-- ===== src/Mrp/Lite/Schedule.antt =====
-- The sends of AVB Lite (mrp.c): an entry in `mrp_lite_flush`, of the talkers, the listeners or the
-- refusals, and how often what it declares goes out.
use esp_avb.Prelude.{ℕ, ◌+◌, ◌≤◌, ◌<◌, ◌≡◌, ◌⊎◌, arith, Bool, true, false, not, ◌||◌, if◌then◌else◌}
use esp_avb.Mrp.{
  applicant_vn, applicant_an, applicant_aa, applicant_qa, applicant_la, tx_none, applicant_step,
  applicant_next,
}
use esp_avb.Mrp.Lite.{
  LiteEntry, will_send, declaring, lite_entry_due, lite_redeclare_sm, lite_join_time_us, is_pending,
  redeclared, applicant_ne, applicant_code, withdraw_step, withdrawn, lite_note_local,
}

-- A valid talker or listener entry in `mrp_lite_flush`: the entry, and whether it is sent
unfoldable pub lite_flush_entry : LiteEntry → ℕ → LiteEntry × Bool
unfolding lite_entry_due
lite_flush_entry e now =
    let (e', due) = lite_entry_due e now in
    (record e' { sm = record e'.sm { pending_tx = tx_none } }, due)

-- `msrp_lite_refusal_entry_t`, without its key and its value
pub record Refusal : Type 0 where
  pub valid : Bool
  pub entry : LiteEntry

-- The refusal part of `mrp_lite_flush`
unfoldable pub flush_refusal : Refusal → ℕ → Refusal × Bool
unfolding lite_flush_entry declaring applicant_ne
flush_refusal r now =
    let (e, sent) = lite_flush_entry r.entry now in
    if r.valid
    then (
      record {
        valid = declaring e.sm.applicant || not (applicant_ne e.sm.applicant applicant_la);
        entry = e;
      },
      sent,
    )
    else (r, false)

-- The withdrawal of a refusal in `mrp_lite_sync_refusals`
unfoldable pub withdraw_refusal : Refusal → ℕ → Refusal
unfolding declaring withdraw_step lite_note_local
withdraw_refusal r now =
    let sm = withdraw_step true r.entry.sm in
    if declaring r.entry.sm.applicant
    then record r {
      entry = record {
        sm = sm;
        next_tx_us = lite_note_local now sm r.entry.sm.applicant r.entry.next_tx_us;
      };
    }
    else r

-- A redeclaration of a declaring attribute, in any state, goes out exactly twice: at the first flush
-- at which its next send is due, at the first one JoinTime later and not before, and at no third;
-- it is declaring all the while. From a quiet state the first send is due at once.
pub lite_sent_twice :
    (e : LiteEntry) (t0 t1 t2 t3 : ℕ)
    → declaring e.sm.applicant ≡ true
    → let e0 = lite_redeclare_sm e t0 in
      let (e1, sent1) = lite_flush_entry e0 t1 in
      let (e2, sent2) = lite_flush_entry e1 t2 in
      let (e3, sent3) = lite_flush_entry e2 t3 in
      e0.next_tx_us ≤ t1
      → (sent1 ≡ true)
        × (t2 < t1 + lite_join_time_us → (sent2 ≡ false) × (e2 ≡ e1))
        × (t1 + lite_join_time_us ≤ t2 → (sent2 ≡ true) × (sent3 ≡ false))
        × (declaring e3.sm.applicant ≡ true)
        × (e.sm.applicant ≡ applicant_qa → e0.next_tx_us ≡ t0)
unfolding lite_redeclare_sm lite_flush_entry lite_entry_due declaring will_send applicant_step
    applicant_next redeclared applicant_ne applicant_code is_pending
lite_sent_twice e t0 t1 t2 t3 d = λ due. ground arith

-- A refusal that is declared keeps its place in the table through every flush. When it is withdrawn
-- after it went out at least once or is about to as New, the next flush sends one Lv, frees the
-- place, and no later flush sends anything for it.
pub refusal_withdrawn :
    (r : Refusal) (t0 t1 t2 : ℕ)
    → r.valid ≡ true
    → declaring r.entry.sm.applicant ≡ true
    → let gone = withdraw_refusal r t0 in
      let (r1, sent1) = flush_refusal gone t1 in
      ((flush_refusal r t1).0.valid ≡ true)
      × ((r.entry.sm.applicant ≡ applicant_aa)
            ⊎ (r.entry.sm.applicant ≡ applicant_qa)
            ⊎ (r.entry.sm.applicant ≡ applicant_vn)
            ⊎ (r.entry.sm.applicant ≡ applicant_an)
          → t0 ≤ t1
          → (sent1 ≡ true) × (r1.valid ≡ false) × ((flush_refusal r1 t2).1 ≡ false))
unfolding withdraw_refusal flush_refusal lite_flush_entry lite_entry_due declaring will_send
    applicant_step applicant_next withdraw_step withdrawn lite_note_local applicant_ne
    applicant_code is_pending
refusal_withdrawn r t0 t1 t2 v d = ground arith
