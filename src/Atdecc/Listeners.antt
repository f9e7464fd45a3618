-- ===== src/Atdecc/Listeners.antt =====
-- The listeners that are connected to an output stream, in atdecc.c and avb.c, and the ACMP command
-- that connects and disconnects them.
pub mod Rows
pub mod Connect
use esp_avb.Prelude.{
  ℕ, zero, suc, ◌+◌, Bool, true, false, not, ◌&&◌, ◌||◌, List, [], ◌∷◌, ◌++◌, Option, none, some,
  if◌then◌else◌, ◌==◌, ltb, leb, length, get_elem?, get_or,
}
use esp_avb.Mrp.Table.{find_index, modify}
use esp_avb.Atdecc.{Entity, acquired_or_locked_by_other, same_flag}

-- A row of `connected_listeners`, with the fields that the functions here use. A table is the list
-- of its first `connection_count` rows.
pub record Row : Type 0 where
  pub mac_addr : ℕ
  pub entity_id : ℕ
  pub uid : ℕ
  pub msrp_ready : Bool
  pub acmp_connected : Bool
  pub asking_failed : Bool
  pub last_seen_us : ℕ

-- `AVB_MAX_NUM_CONNECTED_LISTENERS`
abbrev pub max_connected_listeners : ℕ
max_connected_listeners = 10

unfoldable pub is_identity : ℕ → ℕ → Row → Bool
is_identity id uid r = r.entity_id == id && r.uid == uid

unfoldable pub is_entity : ℕ → Row → Bool
is_entity id r = r.entity_id == id

-- `find_talker_listener_by_identity`
unfoldable pub find_by_identity : ℕ → ℕ → List Row → Option ℕ
unfolding find_index is_identity
find_by_identity id uid rs = find_index (is_identity id uid) rs

-- `find_talker_listener_by_entity`
unfoldable pub find_by_entity : ℕ → List Row → Option ℕ
unfolding find_index is_entity
find_by_entity id rs = find_index (is_entity id) rs

-- `count_acmp_connected_talker_listeners`
unfoldable pub count_connected : List Row → ℕ
count_connected [] = 0
count_connected (r ∷ rs) = (if r.acmp_connected then 1 else 0) + count_connected rs

-- The row of the entity that ACMP has not connected yet
unfoldable pub waiting_entity : ℕ → List Row → Option ℕ
unfolding find_by_entity
waiting_entity id rs = elim (find_by_entity id rs) [
  | none ↦ none
  | some i ↦ elim (get_elem? rs i) [
    | none ↦ none
    | some r ↦ if r.acmp_connected then none else some i
  ]
]

-- A row in the loop for the sole row that MSRP alone knows: `none` when the loop ends as ambiguous
unfoldable pub pending_next : ℕ → Option ℕ → Row → Option (Option ℕ)
pending_next i found r =
    if not r.acmp_connected && r.msrp_ready
    then elim found [ none ↦ some (some i) | some _ ↦ none ]
    else some found

unfoldable pub sole_pending : List Row → ℕ → Option ℕ → Option ℕ
unfolding pending_next
sole_pending [] i found = found
sole_pending (r ∷ rs) i found = elim (pending_next i found r) [
  | none ↦ none
  | some found' ↦ sole_pending rs (i + 1) found'
]

unfoldable pub identify : ℕ → ℕ → Row → Row
identify id uid r = record r { entity_id = id; uid = uid }

-- A row after the last, which is zero there
unfoldable pub new_row : ℕ → ℕ → Row
new_row id uid = record {
  mac_addr = 0;
  entity_id = id;
  uid = uid;
  msrp_ready = false;
  acmp_connected = false;
  asking_failed = false;
  last_seen_us = 0;
}

-- A row that the identity is given to
unfoldable pub mergeable : ℕ → List Row → Option ℕ
unfolding waiting_entity sole_pending
mergeable id rs = elim (waiting_entity id rs) [ some i ↦ some i | none ↦ sole_pending rs 0 none ]

-- `find_or_add_talker_listener_by_identity`. The row of the entity has its ID already.
unfoldable pub find_or_add : ℕ → ℕ → List Row → List Row × Option ℕ
unfolding find_by_identity mergeable
find_or_add id uid rs = elim (find_by_identity id uid rs) [
  | some i ↦ (rs, some i)
  | none ↦ elim (mergeable id rs) [
    | some i ↦ (modify i (identify id uid) rs, some i)
    | none ↦
        if leb max_connected_listeners (length rs)
        then (rs, none)
        else (rs ++ new_row id uid ∷ [], some (length rs))
  ]
]

-- `avb_remove_talker_listener_by_index`
unfoldable pub remove_row : ℕ → List Row → List Row
remove_row i [] = []
remove_row zero (r ∷ rs) = rs
remove_row (suc i) (r ∷ rs) = r ∷ remove_row i rs

-- The statuses that the handler answers with
pub data AcmpStatus : Type 0 where
  acmp_success acmp_talker_unknown_id acmp_controller_not_authorized acmp_talker_exclusive :
      AcmpStatus

-- What the handler has the rest of the program do
pub data Effect : Type 0 where
  persist_stream start_stream_out stop_stream_out : Effect
  declare_now : (listener : ℕ) → Effect

-- The fields of `avb_talker_stream_s` that the handler uses; `format_class_b` is what
-- `avb_output_format_class` gives.
pub record TalkerStream : Type 0 where
  pub rows : List Row
  pub class_b : Bool
  pub vlan_id : ℕ
  pub streaming : Bool
  pub format_class_b : Option Bool

-- What the handler reads of the node: its medium, AVB Lite, and the VLANs of `msrp_mappings`
pub record Node : Type 0 where
  pub wifi : Bool
  pub lite : Bool
  pub mapping_vlans : List ℕ

pub record TxCommand : Type 0 where
  pub listener_id : ℕ
  pub listener_uid : ℕ
  pub controller_id : ℕ
  pub flag_class_b : Bool

-- The response: its status, and in a success the connection count and the class
pub record TxResponse : Type 0 where
  pub status : AcmpStatus
  pub connection_count : ℕ
  pub class_b : Bool

-- The connected rows but the one at the index
unfoldable pub count_others : Option ℕ → List Row → ℕ
unfolding count_connected remove_row
count_others none rs = count_connected rs
count_others (some i) rs = count_connected (remove_row i rs)

-- The class that the stream takes
unfoldable pub agreed_class : Node → TalkerStream → TxCommand → Bool
unfolding count_others find_by_identity
agreed_class node s c =
    let asked : Bool = elim s.format_class_b [ none ↦ c.flag_class_b | some b ↦ b ] in
    if ltb 0 (count_others (find_by_identity c.listener_id c.listener_uid s.rows) s.rows)
    then s.class_b
    else node.wifi || asked

unfoldable pub connect_row : ℕ → Row → Row
connect_row now r = record r { acmp_connected = true; asking_failed = false; last_seen_us = now }

-- The class, the VLAN and the effects of a change of class
unfoldable pub take_class : Node → TalkerStream → Bool → ℕ → TalkerStream × List Effect
unfolding same_flag
take_class node s b i = if same_flag s.class_b b then (s, []) else (
  record s { class_b = b; vlan_id = get_or node.mapping_vlans (if b then 1 else 0) s.vlan_id },
  persist_stream ∷ declare_now i ∷ [],
)

-- The stream starts if MSRP declared the listener ready before.
unfoldable pub starts : Node → TalkerStream → ℕ → List Effect
starts node s i = elim (get_elem? s.rows i) [
  | none ↦ []
  | some r ↦ if r.msrp_ready && not s.streaming && not node.lite then start_stream_out ∷ [] else []
]

-- The answer on the stream as it is now
unfoldable pub tx_success : TalkerStream → TxResponse
unfolding count_connected
tx_success s = record {
  status = acmp_success;
  connection_count = count_connected s.rows;
  class_b = s.class_b;
}

unfoldable pub tx_failure : AcmpStatus → TalkerStream → TxResponse
tx_failure st s = record { status = st; connection_count = 0; class_b = s.class_b }

-- The listener gets the row that the search gives, and the stream the class `b`.
unfoldable pub join_row :
    ℕ → Node → TalkerStream → Bool → List Row × Option ℕ → TalkerStream × TxResponse × List Effect
join_row now node s b (rs, none) = (s, tx_failure acmp_talker_exclusive s, [])
join_row now node s b (rs, some i) =
    let (t, declared) = take_class node (record s { rows = modify i (connect_row now) rs }) b i in
    (t, tx_success t, declared ++ starts node t i)

-- CONNECT_TX once the command is allowed
unfoldable pub connect_tx :
    ℕ → Node → TalkerStream → TxCommand → TalkerStream × TxResponse × List Effect
connect_tx now node s c =
    join_row now node s (agreed_class node s c) (find_or_add c.listener_id c.listener_uid s.rows)

-- The row that DISCONNECT_TX removes
unfoldable pub leaving_row : TxCommand → List Row → Option ℕ
unfolding find_by_identity find_by_entity
leaving_row c rs = elim (find_by_identity c.listener_id c.listener_uid rs) [
  | some i ↦ some i
  | none ↦ find_by_entity c.listener_id rs
]

-- DISCONNECT_TX once the command is allowed
unfoldable pub disconnect_tx : TalkerStream → TxCommand → TalkerStream × TxResponse × List Effect
unfolding leaving_row remove_row tx_success
disconnect_tx s c =
    let t : TalkerStream = elim (leaving_row c s.rows) [
      | none ↦ s
      | some i ↦ record s { rows = remove_row i s.rows }
    ] in
    (t, tx_success t, if t.streaming && length t.rows == 0 then stop_stream_out ∷ [] else [])

-- `avb_process_acmp_connect_tx_command` on the stream that `talker_uid` names, if it names one
unfoldable pub process_connect_tx :
    Bool
    → ℕ
    → Node
    → Entity
    → Bool
    → TalkerStream
    → TxCommand
    → TalkerStream × TxResponse × List Effect
unfolding acquired_or_locked_by_other
process_connect_tx disconnect now node e valid_uid s c =
    if not valid_uid
    then (s, tx_failure acmp_talker_unknown_id s, [])
    else if acquired_or_locked_by_other e c.controller_id
    then (s, tx_failure acmp_controller_not_authorized s, [])
    else if disconnect
    then disconnect_tx s c
    else connect_tx now node s c
