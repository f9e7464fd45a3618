-- ===== src/Atdecc/Tests.antt =====
-- Instances of what is proved of the control of the entity.
use esp_avb.Prelude.{◌≡◌, ◌≤◌, refl, true, false, List, [], ◌∷◌, ◌⊎◌, none, some, arith}
use esp_avb.Unsol.{State}
use esp_avb.Utils.{Timeval}
use esp_avb.Atdecc.{
  Entity, AcquireCommand, acquired_or_locked_by_other, LockCommand, aecp_entity_locked,
  process_lock_entity,
}
use esp_avb.Atdecc.Holder.{Op, op_acquire, op_lock, op_tick, after_all, all_leave, lock_kept}
use esp_avb.Mrp.Table.{modify}
use esp_avb.Atdecc.Listeners.{
  TalkerStream, Node, TxCommand, count_others, find_by_identity, find_or_add, mergeable,
  waiting_entity, take_class, connect_tx, join_row, tx_success, agreed_class, connect_row,
  start_stream_out,
}
use esp_avb.Atdecc.Listeners.Connect.{connect_tx-keeps_class}
use esp_avb.Atdecc.Inflight.{Command, Inflight, process_timeouts, expired, clear_pending}
use esp_avb.Atdecc.Inflight.Expiry.{outbound, keyed, live, still_pending, process_timeouts-lem}

-- Controller 5 has the lock until 60 s after boot.
abbrev locked_entity : State
locked_entity = record {
  controllers = [];
  aecp_seq_id = 0;
  milan_compliant = true;
  wifi = false;
  locked = true;
  locked_by = 5;
  lock_expires_us = 60_000_000;
}

abbrev lock_by_six : LockCommand
lock_by_six = record { controller_id = 6; mac = 1; unlock = false; descriptor_type = 0 }

abbrev locked_node : Entity
locked_node = record { base = locked_entity; acquired = false; acquired_by = 0 }

abbrev acquire_by_six : AcquireCommand
acquire_by_six = record { controller_id = 6; mac = 1; release = false }

abbrev attempts : List Op
attempts =
    op_tick 59_999_999 ∷ op_acquire 40 0 [] true acquire_by_six ∷ op_lock 50 [] lock_by_six ∷ []

lock_kept_example :
    let t = after_all attempts locked_node in
    (t.base.locked ≡ true)
    × (t.base.locked_by ≡ 5)
    × (60_000_000 ≤ t.base.lock_expires_us)
    × (acquired_or_locked_by_other t 6 ≡ true)
    × (process_lock_entity 70 [] t.base lock_by_six
        ≡ (t.base, record { status = aecp_entity_locked; locked_id = 5 }, []))
unfolding all_leave
lock_kept_example = lock_kept attempts locked_node 70 [] lock_by_six refl refl refl refl

abbrev connect_command : Command
connect_command = record {
  is_acmp = true;
  msg_type = 0;
  acmp = record {
    seq_id = 3;
    talker_uid = 0;
    listener_uid = 1;
    talker_id = 20;
    listener_id = 30;
    controller_id = 40;
  };
  aecp = record { seq_id = 0; target_id = 0; controller_id = 0; command_type = 0 };
}

abbrev in_flight : List Inflight
in_flight =
    record {
      timeout = record { tv_sec = 8; tv_usec = 0 };
      retried = false;
      aecp_seq_id = 0;
      acmp_seq_id = 2;
      command = connect_command;
      inbound = false;
    }
    ∷ record {
      timeout = record { tv_sec = 4; tv_usec = 500_000 };
      retried = false;
      aecp_seq_id = 0;
      acmp_seq_id = 3;
      command = connect_command;
      inbound = false;
    }
    ∷ []

abbrev five_seconds : Timeval
five_seconds = record { tv_sec = 5; tv_usec = 0 }

process_timeouts-lem_example :
    process_timeouts five_seconds
      (record { commands = in_flight; pending = true ∷ true ∷ []; sent = [] })
    ≡ some (record {
      commands = live five_seconds in_flight;
      pending = still_pending five_seconds in_flight (true ∷ true ∷ []);
      sent = [];
    })
unfolding outbound keyed
process_timeouts-lem_example =
    process_timeouts-lem five_seconds in_flight (true ∷ true ∷ []) refl refl

-- The second command is given up, and with it the connection of input stream 1.
given_up : still_pending five_seconds in_flight (true ∷ true ∷ []) ≡ true ∷ false ∷ []
unfolding still_pending expired clear_pending
given_up = refl

-- Listener 30 is connected, and 31 is known from MSRP alone.
abbrev one_connected : TalkerStream
one_connected = record {
  rows =
      record {
        mac_addr = 1;
        entity_id = 30;
        uid = 0;
        msrp_ready = true;
        acmp_connected = true;
        asking_failed = false;
        last_seen_us = 7;
      }
      ∷ record {
        mac_addr = 2;
        entity_id = 31;
        uid = 0;
        msrp_ready = true;
        acmp_connected = false;
        asking_failed = false;
        last_seen_us = 8;
      }
      ∷ [];
  class_b = false;
  vlan_id = 2;
  streaming = true;
  format_class_b = none;
}

abbrev wired : Node
wired = record { wifi = false; lite = false; mapping_vlans = 2 ∷ 3 ∷ [] }

abbrev asks_class_b : TxCommand
asks_class_b = record { listener_id = 31; listener_uid = 4; controller_id = 5; flag_class_b = true }

connect_tx-keeps_class_example :
    let out = connect_tx 9 wired one_connected asks_class_b in
    (out.0.class_b ≡ false)
    × (out.0.vlan_id ≡ 2)
    × (out.1.class_b ≡ false)
    × ((out.2 ≡ []) ⊎ (out.2 ≡ start_stream_out ∷ []))
unfolding count_others find_by_identity
connect_tx-keeps_class_example =
    connect_tx-keeps_class 9 wired one_connected asks_class_b (omega arith)

-- The row of listener 31 takes its unique ID, and the connection count is two.
two_connected : (connect_tx 9 wired one_connected asks_class_b).1.connection_count ≡ 2
unfolding connect_tx find_or_add find_by_identity mergeable waiting_entity modify take_class
    join_row tx_success agreed_class connect_row
two_connected = refl
