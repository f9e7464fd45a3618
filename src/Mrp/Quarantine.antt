-- ===== src/Mrp/Quarantine.antt =====
-- The Talker Advertise declarations of mrp.c (section 6b): a changed value is withdrawn and held
-- until the network has dropped the old one. `bridge` is `CONFIG_ESP_AVB_ROLE_BRIDGE`, `lite` is
-- `state->avb_lite`, and `now` is what `esp_timer_get_time` returns in a call.
pub mod Silence
pub mod Reopen
pub mod Predict
mod Value
mod Tests
unfoldable pub use Value.*
use esp_avb.Prelude.{
  ℕ, zero, suc, ◌+◌, ◌-◌, ◌*◌, ◌%◌, ◌^◌, Bool, true, false, not, ◌&&◌, ◌||◌, List, [], ◌∷◌, Option,
  none, some, if◌then◌else◌, ◌==◌, leb, length, get_or, get_elem?, set, take, drop, ◌++◌,
}
use esp_avb.Mrp.{
  ApplicantState, SmState, applicant_step, sm_reset, leave_timer_len_us, registrar_in,
}
use esp_avb.Mrp.Lite.{declare_event, lite_note_local, withdraw_step, sm_idle}
use esp_avb.Mrp.Table.{modify}
use esp_avb.Mrp.Attributes.{
  TalkerType, talker_advertise, talker_failed, TalkerEntry, talker_find, talker_find_or_insert,
  talker_entry, fresh_talker,
}

-- `MSRP_VALUE_CHANGE_HOLDOFF_US` and `MSRP_VALUE_SHRINK_HOLDOFF_US`
unfoldable pub value_change_holdoff_us : Bool → ℕ
value_change_holdoff_us bridge = if bridge then 1500 * 1000 else 32 * 1000 * 1000

abbrev pub value_shrink_holdoff_us : ℕ
value_shrink_holdoff_us = 1500 * 1000

abbrev pub value_change_leavealls : ℕ
value_change_leavealls = 2

-- `s_talker_leaveall_count` (a `uint32_t`) and `s_talker_leaveall_us` of a port
pub record LeaveAlls : Type 0 where
  pub count : ℕ
  pub last_us : ℕ

-- A Talker LeaveAll in `msrp_dispatch_leaveall`
unfoldable pub heard_leaveall : ℕ → LeaveAlls → LeaveAlls
heard_leaveall now l = record { count = (l.count + 1) % 2 ^ 32; last_us = now }

-- The LeaveAlls since the hold-off began, in `uint32_t`
unfoldable pub leavealls_since : LeaveAlls → ℕ → ℕ
leavealls_since l base = (l.count + 2 ^ 32 - base) % 2 ^ 32

-- `mrp_value_change_holdoff_over`
unfoldable pub holdoff_over : Bool → LeaveAlls → TalkerEntry → ℕ → Bool
unfolding leavealls_since
holdoff_over bridge l e now =
    leb e.redeclare_after_us now
    || (not bridge
        && leb value_change_leavealls (leavealls_since l e.holdoff_leaveall_base)
        && leb (l.last_us + leave_timer_len_us) now)

-- `mrp_talker_advertise_change_waits`
unfoldable pub advertise_change_waits : Bool → List ℕ → List TalkerEntry → Stream → Bool
unfolding info
advertise_change_waits lite mappings es s = elim (talker_entry es s.stream_id talker_advertise) [
  | none ↦ false
  | some e ↦
      let fresh = talker_candidate lite mappings e s in
      if not (e.redeclare_after_us == 0) || e.dest_addr == 0
      then false
      else not (same_info (info e) fresh) && not (value_shrinks (info e) fresh)
]

-- `mrp_talker_end_holdoff`
unfoldable pub end_holdoff : TalkerEntry → TalkerEntry
end_holdoff e = record e { redeclare_after_us = 0; declare_held = false }

-- The local event of a declaration, with its note for AVB Lite; `before` is the Applicant's state
-- when the call began.
unfoldable pub declare_step : ℕ → ApplicantState → TalkerEntry → TalkerEntry
unfolding applicant_step declare_event lite_note_local
declare_step now before e =
    let sm = applicant_step e.sm (declare_event e.sm.applicant) in
    record e { sm = sm; lite_next_tx_us = lite_note_local now sm before e.lite_next_tx_us }

-- `mrp_sm_reset_for_new_value`, and `e->wire = fresh`
unfoldable pub new_value : TalkerInfo → TalkerEntry → TalkerEntry
unfolding sm_reset with_info
new_value fresh e = record (with_info fresh e) { sm = sm_reset }

-- The hold-off of a value that was on the wire (a declared value has a destination)
unfoldable pub begin_holdoff : Bool → LeaveAlls → ℕ → TalkerInfo → TalkerEntry → TalkerEntry
unfolding info value_shrinks value_change_holdoff_us
begin_holdoff bridge l now fresh e = record e {
  withdrawn_us = now;
  redeclare_after_us =
      now
      + (if value_shrinks (info e) fresh
          then value_shrink_holdoff_us
          else value_change_holdoff_us bridge);
  holdoff_leaveall_base = l.count;
}

-- The value changes, with the old values sent as leaving (`mrp_tx_talker_value_leave`)
unfoldable pub change_value :
    Bool → Bool → LeaveAlls → ℕ → TalkerInfo → TalkerEntry → TalkerEntry × List TalkerInfo
unfolding new_value begin_holdoff info
change_value bridge lite l now fresh e =
    if lite
    then (
      record (new_value fresh e) {
        redeclare_after_us = 0;
        declare_held = false;
        lite_next_tx_us = now;
      },
      [],
    )
    else if e.dest_addr == 0
    then (new_value fresh e, [])
    else (new_value fresh (begin_holdoff bridge l now fresh e), info e ∷ info e ∷ [])

-- What the code does with an entry
pub record Outcome : Type 0 where
  pub entry : TalkerEntry
  pub leaves : List TalkerInfo
  pub declares : Bool

-- The end of `mrp_declare_talker_advertise`: the entry is held, or it declares.
unfoldable pub declare_or_hold :
    Bool → LeaveAlls → ℕ → ApplicantState → TalkerInfo → TalkerEntry × List TalkerInfo → Outcome
unfolding holdoff_over end_holdoff declare_step with_info
declare_or_hold bridge l now before fresh (e, leaves) =
    if not (e.redeclare_after_us == 0) && not (holdoff_over bridge l e now)
    then record { entry = record e { declare_held = true }; leaves = leaves; declares = false }
    else record {
      entry =
          declare_step now before
            (with_info fresh (if e.redeclare_after_us == 0 then e else end_holdoff e));
      leaves = leaves;
      declares = true;
    }

-- `mrp_declare_talker_advertise` on its entry
unfoldable pub declare_entry : Bool → Bool → LeaveAlls → ℕ → List ℕ → Stream → TalkerEntry → Outcome
unfolding talker_candidate same_info info change_value declare_or_hold
declare_entry bridge lite l now mappings s e =
    let own = record e { locally_originated = true } in
    let fresh = talker_candidate lite mappings own s in
    declare_or_hold bridge l now e.sm.applicant fresh
      (if same_info (info own) fresh then (own, []) else change_value bridge lite l now fresh own)

-- What a call does to the table, with the old values sent and whether the JoinTimer is armed
pub record Done : Type 0 where
  pub talkers : List TalkerEntry
  pub sent : List TalkerInfo
  pub arms : Bool

-- `mrp_declare_talker_advertise`
unfoldable pub declare_talker_advertise :
    Bool → Bool → LeaveAlls → ℕ → List ℕ → Stream → List TalkerEntry → Done
unfolding talker_find_or_insert declare_entry
declare_talker_advertise bridge lite l now mappings s es =
    let (es', at) = talker_find_or_insert es s.stream_id talker_advertise in
    elim at [
      | none ↦ record { talkers = es'; sent = []; arms = false }
      | some i ↦ elim (get_elem? es' i) [
        | none ↦ record { talkers = es'; sent = []; arms = false }
        | some e ↦
            let out = declare_entry bridge lite l now mappings s e in
            record { talkers = set es' i out.entry; sent = out.leaves; arms = out.declares }
      ]
    ]

-- An entry that `mrp_talker_release_held` releases
unfoldable pub releasable : Bool → LeaveAlls → ℕ → TalkerEntry → Bool
unfolding holdoff_over
releasable bridge l now e =
    e.valid && e.declare_held && not (e.redeclare_after_us == 0) && holdoff_over bridge l e now

unfoldable pub release_entry : Bool → LeaveAlls → ℕ → TalkerEntry → TalkerEntry
unfolding releasable end_holdoff declare_step
release_entry bridge l now e =
    if releasable bridge l now e then declare_step now e.sm.applicant (end_holdoff e) else e

-- `mrp_talker_release_held`: the table, and `released`
unfoldable pub release_held : Bool → LeaveAlls → ℕ → List TalkerEntry → List TalkerEntry × Bool
unfolding release_entry releasable
release_held bridge l now [] = ([], false)
release_held bridge l now (e ∷ es) =
    let (rest, released) = release_held bridge l now es in
    (release_entry bridge l now e ∷ rest, releasable bridge l now e || released)

-- `mrp_declare_talker_failed` on its entry, with the bridge ID that the caller or
-- `mrp_own_failure_bridge_id` gives
unfoldable pub declare_failed_entry : Bool → ℕ → List ℕ → Stream → ℕ → ℕ → TalkerEntry → TalkerEntry
unfolding build_talker_info with_info declare_step
declare_failed_entry lite now mappings s failure_code bridge_id e =
    declare_step now e.sm.applicant (record (with_info (build_talker_info lite mappings s) e) {
      locally_originated = true;
      failure_code = failure_code;
      failure_bridge_id = bridge_id;
    })

-- `mrp_declare_talker_failed`
unfoldable pub declare_talker_failed : Bool → ℕ → List ℕ → Stream → ℕ → ℕ → List TalkerEntry → Done
unfolding talker_find_or_insert declare_failed_entry
declare_talker_failed lite now mappings s failure_code bridge_id es =
    let (es', at) = talker_find_or_insert es s.stream_id talker_failed in
    elim at [
      | none ↦ record { talkers = es'; sent = []; arms = false }
      | some i ↦ record {
        talkers = modify i (declare_failed_entry lite now mappings s failure_code bridge_id) es';
        sent = [];
        arms = true;
      }
    ]

-- `mrp_own_failure_bridge_id`: the six octets of the MAC address, most significant first
unfoldable pub own_failure_bridge_id : Bool → List ℕ → List ℕ
own_failure_bridge_id lite mac =
    if lite then 0 ∷ 0 ∷ take 6 mac else take 3 mac ++ 0xff ∷ 0xfe ∷ drop 3 (take 6 mac)

-- One of the two entries in `mrp_withdraw_talker`; only the advertise entry clears `declare_held`.
unfoldable pub withdraw_entry : Bool → ℕ → TalkerType → TalkerEntry → TalkerEntry
unfolding withdraw_step lite_note_local
withdraw_entry lite now ty e =
    let sm = withdraw_step lite e.sm in
    record e {
      sm = sm;
      declare_held = elim ty [ talker_advertise ↦ false | talker_failed ↦ e.declare_held ];
      lite_next_tx_us = lite_note_local now sm e.sm.applicant e.lite_next_tx_us;
    }

unfoldable pub withdraw_type :
    Bool → ℕ → ℕ → TalkerType → List TalkerEntry → List TalkerEntry × Bool
unfolding talker_find withdraw_entry
withdraw_type lite now id ty es = elim (talker_find es id ty) [
  | none ↦ (es, false)
  | some i ↦ (modify i (withdraw_entry lite now ty) es, true)
]

-- `mrp_withdraw_talker`
unfoldable pub withdraw_talker : Bool → ℕ → ℕ → List TalkerEntry → Done
unfolding withdraw_type
withdraw_talker lite now id es =
    let (es1, armed1) = withdraw_type lite now id talker_advertise es in
    let (es2, armed2) = withdraw_type lite now id talker_failed es1 in
    record { talkers = es2; sent = []; arms = armed1 || armed2 }

-- Whether the entry of a type keeps `mrp_talker_forget` from forgetting the stream
unfoldable pub holds_stream : List TalkerEntry → ℕ → TalkerType → Bool
unfolding talker_entry
holds_stream es id ty = elim (talker_entry es id ty) [ none ↦ false | some e ↦ not (sm_idle e.sm) ]

-- The slot of the index, after `memset`: not valid, so that its type is never read
unfoldable pub clear : Option ℕ → List TalkerEntry → List TalkerEntry
unfolding fresh_talker
clear none es = es
clear (some i) es = set es i (record (fresh_talker 0 talker_advertise) {
  valid = false;
  sm = record sm_reset { registrar = registrar_in };
})

-- `mrp_talker_forget`
unfoldable pub talker_forget : ℕ → List TalkerEntry → List TalkerEntry × Bool
unfolding holds_stream talker_find clear
talker_forget id es =
    if holds_stream es id talker_advertise || holds_stream es id talker_failed
    then (es, false)
    else (
      clear (talker_find es id talker_failed) (clear (talker_find es id talker_advertise) es),
      true,
    )
