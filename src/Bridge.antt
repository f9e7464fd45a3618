-- ===== src/Bridge.antt =====
-- The bridge role (avbbridge.h, avbbridge.c): the SR classes, the tables indexed by port and class,
-- and the forwarding decision of `avb_bridge_classify`.
pub mod Shaper
pub mod Credit
pub mod Drain
pub mod Admission
pub mod Limits
pub mod Accounts
pub mod Classes
mod Tests
use esp_avb.Prelude.{
  ℕ, zero, suc, ◌≡◌, refl, Bool, true, false, not, ◌&&◌, ◌||◌, List, [], ◌∷◌, Option, none, some,
  if◌then◌else◌, ◌==◌,
}

-- `avb_sr_class_e`, without its count
pub data SrClass : Type 0 where
  class_a class_b : SrClass

-- An array indexed by `avb_sr_class_e`
pub record PerClass {ℓ} (A : Type ℓ) : Type ℓ where
  pub of_a : A
  pub of_b : A

module _ {ℓ} {A : Type ℓ} where
  abbrev pub get_class : PerClass A → SrClass → A
  get_class t class_a = t.of_a
  get_class t class_b = t.of_b

  abbrev pub set_class : PerClass A → SrClass → A → PerClass A
  set_class t class_a v = record t { of_a = v }
  set_class t class_b v = record t { of_b = v }

-- `avb_bridge_verdict_e`
pub data Verdict : Type 0 where
  drop terminate bridge : Verdict

-- `avb_bridge_disposition_t`
pub record Disposition : Type 0 where
  pub verdict : Verdict
  pub egress_port : ℕ
  pub sr_class : SrClass
  pub shaped : Bool

-- `CONFIG_ESP_AVB_VLAN_PRIO_CLASS_A`, `_CLASS_B` and `s_allow_class_a_over_wifi`
pub record ForwardConfig : Type 0 where
  pub prio_class_a : ℕ
  pub prio_class_b : ℕ
  pub allow_class_a_over_wifi : Bool

-- The disposition before the switch: zeroes, and the other port.
unfoldable pub initial : ℕ → Disposition
initial ingress_port = record {
  verdict = drop;
  egress_port = if ingress_port == 0 then 1 else 0;
  sr_class = class_a;
  shaped = false;
}

-- The `ETHERTYPE_VLAN` case once the SR class is known
unfoldable pub classify_stream : ForwardConfig → SrClass → Disposition → Disposition
classify_stream cfg class_a d =
    if d.egress_port == 1 && not cfg.allow_class_a_over_wifi
    then record d { verdict = drop; sr_class = class_a }
    else record d { verdict = bridge; sr_class = class_a; shaped = true }
classify_stream cfg class_b d = record d { verdict = bridge; sr_class = class_b; shaped = true }

-- The `ETHERTYPE_VLAN` case
unfoldable pub classify_vlan : ForwardConfig → ℕ → Disposition → Disposition
unfolding classify_stream
classify_vlan cfg pcp d =
    if pcp == cfg.prio_class_a
    then classify_stream cfg class_a d
    else if pcp == cfg.prio_class_b
    then classify_stream cfg class_b d
    else record d { verdict = bridge; shaped = false }

abbrev pub ethertype_ptp : ℕ
ethertype_ptp = 0x88f7

abbrev pub ethertype_avtp : ℕ
ethertype_avtp = 0x22f0

abbrev pub ethertype_msrp : ℕ
ethertype_msrp = 0x22ea

abbrev pub ethertype_mvrp : ℕ
ethertype_mvrp = 0x88f5

abbrev pub ethertype_vlan : ℕ
ethertype_vlan = 0x8100

-- `avb_bridge_classify`
unfoldable pub classify : ForwardConfig → ℕ → ℕ → ℕ → Disposition
unfolding initial classify_vlan
classify cfg ingress_port ethertype vlan_pcp =
    let d = initial ingress_port in
    if ethertype == ethertype_ptp || ethertype == ethertype_msrp || ethertype == ethertype_mvrp
    then record d { verdict = terminate }
    else if ethertype == ethertype_avtp
    then record d { verdict = bridge; shaped = false }
    else if ethertype == ethertype_vlan
    then classify_vlan cfg vlan_pcp d
    else record d { verdict = bridge; shaped = false }
