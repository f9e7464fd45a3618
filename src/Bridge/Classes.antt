-- ===== src/Bridge/Classes.antt =====
-- What `avb_bridge_classify` decides, over all frames.
use esp_avb.Prelude.{ℕ, ◌≡◌, ◌≢◌, ◌↔◌, ◌⊎◌, arith, true, false}
use esp_avb.Bridge.{
  class_a, drop, terminate, bridge, ForwardConfig, classify, ethertype_ptp, ethertype_msrp,
  ethertype_mvrp, ethertype_vlan,
}

-- A frame is dropped exactly when it is a VLAN frame with the Class A priority that came in at
-- port 0 and so would leave on the Wi-Fi port, and Class A over Wi-Fi is not allowed.
pub classify-drop :
    (cfg : ForwardConfig) (port ethertype pcp : ℕ)
    → ((classify cfg port ethertype pcp).verdict ≡ drop) ↔ (
        (ethertype ≡ ethertype_vlan)
        × (pcp ≡ cfg.prio_class_a)
        × (port ≡ 0)
        × (cfg.allow_class_a_over_wifi ≡ false))
unfolding classify
classify-drop cfg port ethertype pcp = ground arith

-- The PTP and MRP frames, and no others, terminate in the bridge.
pub classify-terminate :
    (cfg : ForwardConfig) (port ethertype pcp : ℕ)
    → ((classify cfg port ethertype pcp).verdict ≡ terminate)
      ↔ ((ethertype ≡ ethertype_ptp) ⊎ (ethertype ≡ ethertype_msrp) ⊎ (ethertype ≡ ethertype_mvrp))
unfolding classify
classify-terminate cfg port ethertype pcp = ground arith

-- A frame goes through the shaper exactly when it is a stream frame, of the Class A or the Class B
-- priority, that is not dropped; it is then bridged under the class of its priority.
pub classify-shaped :
    (cfg : ForwardConfig) (port ethertype pcp : ℕ)
    → cfg.prio_class_a ≢ cfg.prio_class_b
    → let d = classify cfg port ethertype pcp in
      ((d.shaped ≡ true) ↔ (
        (ethertype ≡ ethertype_vlan)
        × ((pcp ≡ cfg.prio_class_a) ⊎ (pcp ≡ cfg.prio_class_b))
        × (d.verdict ≢ drop)))
      × (d.shaped ≡ true
          → (d.verdict ≡ bridge) × ((d.sr_class ≡ class_a) ↔ (pcp ≡ cfg.prio_class_a)))
unfolding classify
classify-shaped cfg port ethertype pcp ne = ground arith
