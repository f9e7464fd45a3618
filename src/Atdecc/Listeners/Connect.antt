-- ===== src/Atdecc/Listeners/Connect.antt =====
-- A connection takes over no connected listener's row, and not the class from the others.
use esp_avb.Prelude.{
  ℕ, suc, ◌<◌, ◌≡◌, ◌⊎◌, inl, refl, arith, Bool, true, false, List, [], ◌∷◌, Option, none, some,
  get_elem?,
}
use esp_avb.Mrp.Table.{modify}
use esp_avb.Atdecc.{same_flag}
use esp_avb.Atdecc.Listeners.{
  Row, is_identity, find_by_identity, find_or_add, TalkerStream, Node, TxCommand, count_others,
  agreed_class, connect_row, take_class, starts, tx_success, tx_failure, connect_tx, join_row,
  start_stream_out,
}

same_flag_refl : (b : Bool) → same_flag b b ≡ true
unfolding same_flag
same_flag_refl b = ground arith

agreed_class-others :
    (node : Node) (s : TalkerStream) (c : TxCommand)
    → 0 < count_others (find_by_identity c.listener_id c.listener_uid s.rows) s.rows
    → agreed_class node s c ≡ s.class_b
unfolding agreed_class
agreed_class-others node s c others = ground arith

-- Each row of `rs`, from place `k` on: not connected by ACMP, or of the listener, or in `out` at its
-- place.
abbrev pub OthersKept : ℕ → ℕ → List Row → ℕ → List Row → Type 0
OthersKept id uid [] k out = Unit {0}
OthersKept id uid (r ∷ rs) k out =
    ((r.acmp_connected ≡ false) ⊎ (is_identity id uid r ≡ true) ⊎ (get_elem? out k ≡ some r))
    × OthersKept id uid rs (suc k) out

starts-cases :
    (node : Node) (s : TalkerStream) (i : ℕ)
    → (starts node s i ≡ []) ⊎ (starts node s i ≡ start_stream_out ∷ [])
unfolding starts
starts-cases node s i = ground arith

join_row-keeps_class :
    (now : ℕ) (node : Node) (s : TalkerStream) (out : List Row × Option ℕ)
    → let after = join_row now node s s.class_b out in
      (after.0.class_b ≡ s.class_b)
      × (after.0.vlan_id ≡ s.vlan_id)
      × (after.1.class_b ≡ s.class_b)
      × ((after.2 ≡ []) ⊎ (after.2 ≡ start_stream_out ∷ []))
unfolding join_row take_class tx_success tx_failure
join_row-keeps_class now node s (rs, none) = (refl, refl, refl, inl refl)
join_row-keeps_class now node s (rs, some i) =
    let t : TalkerStream = record s { rows = modify i (connect_row now) rs } in
    let same : same_flag s.class_b s.class_b ≡ true = same_flag_refl s.class_b in
    rw (take_class, same) (refl, refl, refl, starts-cases node t i)

-- While ACMP has another listener connected to the stream, CONNECT_TX changes neither the class of
-- the stream nor its VLAN, and has nothing declared or stored, whatever class it asks for.
pub connect_tx-keeps_class :
    (now : ℕ) (node : Node) (s : TalkerStream) (c : TxCommand)
    → 0 < count_others (find_by_identity c.listener_id c.listener_uid s.rows) s.rows
    → let out = connect_tx now node s c in
      (out.0.class_b ≡ s.class_b)
      × (out.0.vlan_id ≡ s.vlan_id)
      × (out.1.class_b ≡ s.class_b)
      × ((out.2 ≡ []) ⊎ (out.2 ≡ start_stream_out ∷ []))
unfolding connect_tx
connect_tx-keeps_class now node s c others =
    let stays : agreed_class node s c ≡ s.class_b = agreed_class-others node s c others in
    rw (connect_tx, stays)
      (join_row-keeps_class now node s (find_or_add c.listener_id c.listener_uid s.rows))
