-- ===== src/Bridge/Limits.antt =====
-- What one class of a port admits.
use esp_avb.Prelude.{ℕ, ◌+◌, ◌-◌, ◌^◌, ◌≤◌, ◌<◌, ◌≡◌, ◌≢◌, ◌↔◌, arith, none, some}
use esp_avb.Bridge.Admission.{AdmissionClass, port_init, admit_class}

-- A request that does not wrap is admitted exactly when the class has a cap and the sum stays
-- within it; the sum is then what the class has admitted.
pub admit_class-lem :
    (e : AdmissionClass) (request : ℕ)
    → e.admitted_bps + request < 2 ^ 32
    → ((admit_class e request ≢ none) ↔ ((e.cap_bps ≢ 0) × (e.admitted_bps + request ≤ e.cap_bps)))
      × ((e' : AdmissionClass)
          → admit_class e request ≡ some e'
          → (e'.admitted_bps ≡ e.admitted_bps + request)
            × (e'.admitted_bps ≤ e'.cap_bps)
            × (e'.cap_bps ≡ e.cap_bps))
unfolding admit_class
admit_class-lem e request h = (ground arith, λ e' a. ground arith)

-- A request so large that the 32-bit sum wraps to what the cap holds is admitted, and the class then
-- counts less than it did before.
pub admit_class-wraps :
    (e : AdmissionClass) (request : ℕ)
    → request < 2 ^ 32
    → e.admitted_bps ≤ e.cap_bps
    → e.cap_bps < 2 ^ 32
    → e.cap_bps ≢ 0
    → 2 ^ 32 ≤ e.admitted_bps + request
    → admit_class e request ≡ some (record e { admitted_bps = e.admitted_bps + request - 2 ^ 32 })
unfolding admit_class
admit_class-wraps e request r a c z h = ground arith

-- Each class has the whole cap for itself: on a port with a link speed of 1 to 1431 Mbps both
-- classes admit the cap, 75 % of the link, so that together they hold more than the link.
pub classes-oversubscribe :
    (mbps : ℕ)
    → 1 ≤ mbps
    → mbps ≤ 1431
    → let p = port_init mbps in
      (admit_class p.of_a p.of_a.cap_bps ≡ some (record p.of_a { admitted_bps = p.of_a.cap_bps }))
      × (admit_class p.of_b p.of_b.cap_bps ≡ some (record p.of_b { admitted_bps = p.of_b.cap_bps }))
      × (p.of_a.link_rate_bps < p.of_a.cap_bps + p.of_b.cap_bps)
unfolding admit_class port_init
classes-oversubscribe mbps l h = ground arith
