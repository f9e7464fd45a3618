-- ===== src/Mrp/Mvrp/Flush.antt =====
-- The MRPDUs of a flush (`mrp_tx_flush_mvrp`).
use esp_avb.Prelude.{
  ℕ, ◌≡◌, ◌⊎◌, inl, inr, refl, arith, Bool, true, false, List, [], ◌∷◌, ◌++◌, some, if◌then◌else◌,
  Bool-cases, map, map-append, Option, none, ◌∙◌,
}
use mathlib.Core.Path.{ap₂}
use esp_avb.Mrp.{
  Event, tx_none, tx_new, tx_join, tx_leave, applicant_step, TxAction, RegistrarState, registrar_in,
  registrar_lv, registrar_mt,
}
use esp_avb.Mrp.Lite.{is_pending}
use esp_avb.Mrp.Packed.{resolve_3pe, int_to_3pe}
use esp_avb.Mrp.Exchange.{flush, packed}
use esp_avb.Mrp.Mvrp.{VlanEntry, Mrpdu, tx_emit, flush_entry, tx_flush_mvrp}

-- No MRPDU of the list carries the LeaveAll.
abbrev pub NoneLeave : List Mrpdu → Type 0
NoneLeave [] = Unit {0}
NoneLeave (m ∷ ms) = (m.leaveall ≡ false) × NoneLeave ms

-- The first MRPDU carries the bit given, and the others do not carry it.
abbrev pub FirstLeaves : Bool → List Mrpdu → Type 0
FirstLeaves b [] = Unit {0}
FirstLeaves b (m ∷ ms) = (m.leaveall ≡ b) × NoneLeave ms

FirstLeaves-false : (ms : List Mrpdu) → FirstLeaves false ms → NoneLeave ms
FirstLeaves-false [] h = tt
FirstLeaves-false (m ∷ ms) h = h

-- The event of the MRPDU of an entry with something pending
pe_of : TxAction → RegistrarState → ℕ
pe_of tx_new r = 0
pe_of tx_join registrar_in = 1
pe_of tx_join r = 3
pe_of tx_leave r = 5
pe_of tx_none r = 0

resolve_3pe-pending :
    (p : TxAction) (r : RegistrarState) → is_pending p ≡ true → resolve_3pe p r ≡ some (pe_of p r)
unfolding resolve_3pe pe_of is_pending
resolve_3pe-pending tx_new r h = refl
resolve_3pe-pending tx_join registrar_in h = refl
resolve_3pe-pending tx_join registrar_lv h = refl
resolve_3pe-pending tx_join registrar_mt h = refl
resolve_3pe-pending tx_leave r h = refl
resolve_3pe-pending tx_none r h = cc

tx_emit-pending :
    (e : VlanEntry) (la : Bool)
    → is_pending e.sm.pending_tx ≡ true
    → tx_emit e la
      ≡ record {
        vlan_id = e.vlan_id;
        attr_event = int_to_3pe (pe_of e.sm.pending_tx e.sm.registrar) 0 0;
        leaveall = la;
      }
        ∷ []
unfolding tx_emit
tx_emit-pending e la h = rw (tx_emit, resolve_3pe-pending e.sm.pending_tx e.sm.registrar h)

flush_entry-cases :
    (ev : Event) (la : Bool) (e : VlanEntry)
    → let (e', sent, la') = flush_entry ev la e in
      ((sent ≡ []) × (la' ≡ la))
      ⊎ ((m : Mrpdu) × (sent ≡ m ∷ []) × (m.leaveall ≡ la) × (la' ≡ false))
unfolding flush_entry
flush_entry-cases ev la e = elim (Bool-cases e.valid) [
  | inr n ↦ inl (ground arith, ground arith)
  | inl v ↦ elim (Bool-cases (is_pending (applicant_step e.sm ev).pending_tx)) [
    | inr n ↦ inl (ground arith, ground arith)
    | inl y ↦ inr (
      record {
        vlan_id = e.vlan_id;
        attr_event = int_to_3pe (pe_of (applicant_step e.sm ev).pending_tx e.sm.registrar) 0 0;
        leaveall = la;
      },
      ground (arith, tx_emit-pending (record e { sm = applicant_step e.sm ev }) la),
      refl,
      ground arith,
    )
  ]
]

-- An entry in front of MRPDUs whose first carries the bit that it leaves
flush_entry-FirstLeaves :
    (ev : Event) (la : Bool) (e : VlanEntry) (ms : List Mrpdu)
    → let (e', sent, la') = flush_entry ev la e in FirstLeaves la' ms → FirstLeaves la (sent ++ ms)
flush_entry-FirstLeaves ev la e ms = elim (flush_entry-cases ev la e) [
  | inl (s, b) ↦ rw (s, b) (λ h. h)
  | inr (m, s, b, c) ↦ rw (s, c) (λ h. (b, FirstLeaves-false ms h))
]

-- What each valid entry is after the flush: as after the flush of one attribute, nothing pending.
unfoldable pub flushed : Event → VlanEntry → VlanEntry
flushed ev e = if e.valid then record e { sm = (flush ev e.sm).0 } else e

-- VLAN and event octet of an MRPDU
abbrev pub Declaration : Type 0
Declaration = (ℕ × ℕ) × ℕ

unfoldable pub declaration : Mrpdu → Declaration
declaration m = (m.vlan_id, m.attr_event)

octet_of : ℕ × ℕ → Option ℕ → List Declaration
octet_of vlan_id none = []
octet_of vlan_id (some octet) = (vlan_id, octet) ∷ []

-- What an entry says in a flush: the octet that the flush of its attribute alone gives, if any
unfoldable pub says : Event → VlanEntry → List Declaration
unfolding octet_of
says ev e = if e.valid then octet_of e.vlan_id (flush ev e.sm).1 else []

unfoldable pub all_say : Event → List VlanEntry → List Declaration
unfolding says
all_say ev [] = []
all_say ev (e ∷ es) = says ev e ++ all_say ev es

flush_entry-flushed :
    (ev : Event) (la : Bool) (e : VlanEntry) → (flush_entry ev la e).0 ≡ flushed ev e
unfolding flush_entry flushed flush is_pending
flush_entry-flushed ev la e = ground arith

octet_of-pending :
    (id : ℕ × ℕ) (p : TxAction) (r : RegistrarState)
    → is_pending p ≡ true
    → octet_of id (packed (resolve_3pe p r)) ≡ (id, int_to_3pe (pe_of p r) 0 0) ∷ []
unfolding octet_of packed
octet_of-pending id p r h = rw (resolve_3pe-pending p r h) refl

octet_of-silent :
    (id : ℕ × ℕ) (p : TxAction) (r : RegistrarState)
    → is_pending p ≡ false
    → octet_of id (packed (resolve_3pe p r)) ≡ []
unfolding octet_of packed is_pending resolve_3pe
octet_of-silent id p r h = ground arith

flush_entry-says :
    (ev : Event) (la : Bool) (e : VlanEntry) → map declaration (flush_entry ev la e).1 ≡ says ev e
unfolding flush_entry says flush declaration
flush_entry-says ev la e = elim (Bool-cases e.valid) [
  | inr n ↦ ground arith
  | inl v ↦
      let sm = applicant_step e.sm ev in
      elim (Bool-cases (is_pending sm.pending_tx)) [
        | inr n ↦ ground (arith, octet_of-silent e.vlan_id sm.pending_tx sm.registrar n)
        | inl y ↦ ground (
          arith,
          octet_of-pending e.vlan_id sm.pending_tx sm.registrar y,
          tx_emit-pending (record e { sm = sm }) la y,
        )
      ]
]

-- The flush of a VLAN table is the flush of each valid attribute alone, in the order of the table:
-- every valid entry is left as it leaves it, and no other changed; the MRPDUs are those of the
-- entries that have something to say, each once, with its VLAN and the octet that it gives; and the
-- first MRPDU carries the pending LeaveAll bit and no other carries it.
pub tx_flush_mvrp-lem :
    (ev : Event) (la : Bool) (es : List VlanEntry)
    → let out = tx_flush_mvrp ev la es in
      (out.0 ≡ map (flushed ev) es) × (map declaration out.1 ≡ all_say ev es) × FirstLeaves la out.1
unfolding tx_flush_mvrp all_say
tx_flush_mvrp-lem ev la [] = (refl, refl, tt)
tx_flush_mvrp-lem ev la (e ∷ es) =
    let out = flush_entry ev la e in
    let (after, said, leaves) = tx_flush_mvrp-lem ev out.2 es in
    (
      ap₂ ◌∷◌ (flush_entry-flushed ev la e) after,
      map-append declaration out.1 (tx_flush_mvrp ev out.2 es).1
          ∙ ap₂ ◌++◌ (flush_entry-says ev la e) said,
      flush_entry-FirstLeaves ev la e (tx_flush_mvrp ev out.2 es).1 leaves,
    )
