-- ===== src/Bridge/Admission.antt =====
-- Bandwidth admission of the bridge (the end of mrp.c, and `msrp_update_admission`,
-- `msrp_release_admission`). Bandwidths are `uint32_t`. A grant or a release also sets the slope of
-- the shaper.
use esp_avb.Prelude.{
  ℕ, ◌+◌, ◌-◌, ◌*◌, ◌/◌, ◌%◌, ◌^◌, Bool, true, false, not, ◌&&◌, List, [], ◌∷◌, Option, none, some,
  if◌then◌else◌, ◌==◌, ltb, get_elem?, set,
}
use esp_avb.Prelude.Int.{pos}
use esp_avb.Bridge.{SrClass, class_a, class_b, PerClass, get_class, set_class}
use esp_avb.Bridge.Shaper.{Shaper, set_idle_slope}

-- `avb_admission_class_s`
pub record AdmissionClass : Type 0 where
  pub link_rate_bps : ℕ
  pub admitted_bps : ℕ
  pub cap_bps : ℕ

-- `s_admission` by port, and the shaper behind it
pub record Bank : Type 0 where
  pub ports : List (PerClass AdmissionClass)
  pub shaper : Shaper

abbrev pub u32 : ℕ → ℕ
u32 n = n % 2 ^ 32

-- `link_rate * 3u / 4u`
abbrev pub cap_of : ℕ → ℕ
cap_of link_rate = u32 (link_rate * 3) / 4

-- One port in `avb_srp_admission_init`
unfoldable pub port_init : ℕ → PerClass AdmissionClass
port_init link_mbps = record { of_a = fresh; of_b = fresh }
  where
    fresh : AdmissionClass
    fresh = record {
      link_rate_bps = u32 (link_mbps * 1_000_000);
      admitted_bps = 0;
      cap_bps = cap_of (u32 (link_mbps * 1_000_000));
    }

-- `avb_srp_admission_init`, by the link speed of each port; the shaper is left alone.
unfoldable pub init : List ℕ → List (PerClass AdmissionClass)
unfolding port_init
init [] = []
init (mbps ∷ ports) = port_init mbps ∷ init ports

-- `avb_srp_admission_link_rate_bps`
unfoldable pub link_rate_bps : Bank → ℕ → ℕ
link_rate_bps bank p = elim (get_elem? bank.ports p) [ none ↦ 0 | some t ↦ t.of_a.link_rate_bps ]

unfoldable pub with_speed : ℕ → AdmissionClass → AdmissionClass
with_speed link_rate e = record e { link_rate_bps = link_rate; cap_bps = cap_of link_rate }

-- `avb_srp_admission_set_link_speed`
unfoldable pub set_link_speed : Bank → ℕ → ℕ → Bank
unfolding with_speed
set_link_speed bank p link_mbps =
    let rate = u32 (link_mbps * 1_000_000) in
    elim (get_elem? bank.ports p) [
      | none ↦ bank
      | some t ↦ record bank {
        ports =
            set bank.ports p
              (record { of_a = with_speed rate t.of_a; of_b = with_speed rate t.of_b });
      }
    ]

-- The results 0, -1 and -2
pub data Result : Type 0 where
  admitted bad_arg no_space : Result

-- The tests of `avb_srp_admission_try_admit` for one class; the sum wraps.
unfoldable pub admit_class : AdmissionClass → ℕ → Option AdmissionClass
admit_class e request_bps =
    if e.cap_bps == 0
    then none
    else if ltb e.cap_bps (u32 (e.admitted_bps + request_bps))
    then none
    else some (record e { admitted_bps = u32 (e.admitted_bps + request_bps) })

-- The subtraction of `avb_srp_admission_release` for one class
unfoldable pub release_class : AdmissionClass → ℕ → AdmissionClass
release_class e request_bps = record e {
  admitted_bps = if ltb request_bps e.admitted_bps then e.admitted_bps - request_bps else 0;
}

-- The new entry stored, and its sum pushed into the shaper
unfoldable pub store : Bank → ℕ → SrClass → PerClass AdmissionClass → AdmissionClass → Bank
store bank p cls t e = record {
  ports = set bank.ports p (set_class t cls e);
  shaper = (set_idle_slope bank.shaper p cls (pos e.admitted_bps)).0;
}

-- `avb_srp_admission_try_admit`
unfoldable pub try_admit : Bank → ℕ → SrClass → ℕ → Bank × Result
unfolding admit_class store
try_admit bank p cls request_bps = elim (get_elem? bank.ports p) [
  | none ↦ (bank, bad_arg)
  | some t ↦ elim (admit_class (get_class t cls) request_bps) [
    | none ↦ (bank, no_space)
    | some e ↦ (store bank p cls t e, admitted)
  ]
]

-- `avb_srp_admission_release`
unfoldable pub release : Bank → ℕ → SrClass → ℕ → Bank
unfolding release_class store
release bank p cls request_bps = elim (get_elem? bank.ports p) [
  | none ↦ bank
  | some t ↦ store bank p cls t (release_class (get_class t cls) request_bps)
]

-- What a talker entry holds of a port: `admitted_bps[port]` and `admitted_class[port]`
pub record Share : Type 0 where
  pub bps : ℕ
  pub cls : SrClass

-- `msrp_release_admission` on the share of an entry on a port
unfoldable pub release_share : Bank → ℕ → Share → Bank × Share
release_share bank p s =
    if s.bps == 0 then (bank, s) else (release bank p s.cls s.bps, record s { bps = 0 })

-- `entry->admitted_class[port] == cls`
unfoldable pub same_class : SrClass → SrClass → Bool
same_class class_a class_a = true
same_class class_b class_b = true
same_class _ _ = false

-- `msrp_update_admission` once the old share is released
unfoldable pub readmit : Bank × Share → ℕ → SrClass → ℕ → (Bank × Share) × Result
readmit (bank, s) p cls bps =
    let (bank', result) = try_admit bank p cls bps in
    elim result [
      | admitted ↦ ((bank', record { bps = bps; cls = cls }), admitted)
      | bad_arg ↦ ((bank', s), bad_arg)
      | no_space ↦ ((bank', s), no_space)
    ]

-- `msrp_update_admission`
unfoldable pub update_admission : Bank → ℕ → Share → SrClass → ℕ → (Bank × Share) × Result
unfolding readmit release_share same_class
update_admission bank p s cls bps =
    if s.bps == bps && not (bps == 0) && same_class s.cls cls
    then ((bank, s), admitted)
    else readmit (release_share bank p s) p cls bps
