-- ===== src/Mrp/Pdu/RoundTrip.antt =====
-- What a station sends is what its peer's walk of the message calls.
use esp_avb.Prelude.{
  ℕ, zero, suc, ◌+◌, ◌*◌, ◌/◌, ◌%◌, ◌^◌, ◌≡◌, refl, ap, ◌∙◌, arith, Bool, true, false, List, [],
  ◌∷◌, ◌++◌, some, if◌then◌else◌, length, get_or,
}
use mathlib.Core.Path.{subst}
use esp_avb.Mrp.{TxAction, RegistrarState, SmState}
use esp_avb.Mrp.Packed.{int_to_3pe, resolve_3pe}
use esp_avb.Mrp.Attributes.{TalkerType, talker_advertise, talker_failed, ListenerEvent}
use esp_avb.Mrp.Pdu.{
  first_value_len, Call, leave_all, rx_talker, rx_listener, rx_domain, type_domain, type_listener,
  vectors, messages, received, rx_calls,
}
use esp_avb.Mrp.Pdu.Send.{
  Attribute, sent_octets, msg_len, talker_code, talker_len, talker_attribute, tx_flush_talker,
  decl_code, listener_attribute, domain_attribute, tx_flush_listener, tx_flush_domain,
}

-- A list, item by item
tabulate : ℕ → ℕ → List ℕ → List ℕ
tabulate zero i xs = []
tabulate (suc n) i xs = get_or xs i 0 ∷ tabulate n (suc i) xs

tabulate-cons : (n i x : ℕ) (xs : List ℕ) → tabulate n (suc i) (x ∷ xs) ≡ tabulate n i xs
unfolding tabulate
tabulate-cons zero i x xs = refl
tabulate-cons (suc n) i x xs = ap (◌∷◌ (get_or xs i 0)) (tabulate-cons n (suc i) x xs)

tabulate_all : (xs : List ℕ) → tabulate (length xs) 0 xs ≡ xs
unfolding tabulate
tabulate_all [] = refl
tabulate_all (x ∷ xs) = ap (◌∷◌ x) (tabulate-cons (length xs) 0 x xs ∙ tabulate_all xs)

-- What the peer calls on an attribute: the LeaveAll, if there is one, then the value.
unfoldable pub heard : Bool → ℕ → Call → List Call
heard leaveall attr_type call = (if leaveall then leave_all attr_type ∷ [] else []) ++ call ∷ []

-- An event octet that the walk packs again as it was
abbrev Repacks : ℕ → Type 0
Repacks pe = int_to_3pe (int_to_3pe pe 0 0 / 36) 0 0 ≡ int_to_3pe pe 0 0

resolve_3pe-Repacks :
    (action : TxAction) (reg : RegistrarState) (pe : ℕ)
    → resolve_3pe action reg ≡ some pe
    → Repacks pe
unfolding resolve_3pe int_to_3pe
resolve_3pe-Repacks action reg pe h = ground arith

talker-walk :
    (ty : TalkerType) (info : List ℕ) (leaveall : Bool) (pe : ℕ)
    → Repacks pe
    → (stale : List ℕ)
    → let fv = tabulate (talker_len ty) 0 info in
      messages
        (5 + talker_len ty + 7)
        (sent_octets (talker_attribute ty fv leaveall pe) ++ stale)
        (4 + talker_len ty + 7)
        false
        []
        0
      ≡ some (heard leaveall (talker_code ty) (rx_talker (talker_code ty) fv (int_to_3pe pe 0 0)))
unfolding tabulate messages sent_octets talker_attribute heard vectors first_value_len talker_len
talker-walk talker_advertise info true pe r stale = rw r refl
talker-walk talker_advertise info false pe r stale = rw r refl
talker-walk talker_failed info true pe r stale = rw r refl
talker-walk talker_failed info false pe r stale = rw r refl

decl-read : (decl : ListenerEvent) → decl_code decl * 64 / 2 ^ 6 % 4 ≡ decl_code decl
unfolding decl_code
decl-read decl = ground arith

listener-walk :
    (id : List ℕ) (decl : ListenerEvent) (leaveall : Bool) (pe : ℕ)
    → Repacks pe
    → (stale : List ℕ)
    → let fv = tabulate 8 0 id in
      messages (21) (sent_octets (listener_attribute fv decl leaveall pe) ++ stale) (20) false [] 0
      ≡ some (heard leaveall 3 (rx_listener fv (int_to_3pe pe 0 0) (decl_code decl)))
unfolding tabulate messages sent_octets listener_attribute heard vectors first_value_len
listener-walk id decl true pe r stale = rw (r, decl-read decl) refl
listener-walk id decl false pe r stale = rw (r, decl-read decl) refl

domain-walk :
    (info : List ℕ) (leaveall : Bool) (pe : ℕ)
    → Repacks pe
    → (stale : List ℕ)
    → let fv = tabulate 4 0 info in
      messages (16) (sent_octets (domain_attribute fv leaveall pe) ++ stale) (15) false [] 0
      ≡ some (heard leaveall 4 (rx_domain fv (int_to_3pe pe 0 0)))
unfolding tabulate messages sent_octets domain_attribute heard vectors first_value_len
domain-walk info true pe r stale = rw r refl
domain-walk info false pe r stale = rw r refl

-- Delivered to a peer, the octets of an attribute make it call `calls`.
abbrev pub Arrives : Attribute → List Call → Type 0
Arrives a calls =
    (stale : List ℕ) → rx_calls false (msg_len a) (sent_octets a ++ stale) ≡ some calls

talker-Arrives :
    (ty : TalkerType) (info : List ℕ) (leaveall : Bool) (pe : ℕ)
    → Repacks pe
    → let fv = tabulate (talker_len ty) 0 info in
      Arrives
        (talker_attribute ty fv leaveall pe)
        (heard leaveall (talker_code ty) (rx_talker (talker_code ty) fv (int_to_3pe pe 0 0)))
unfolding msg_len tabulate sent_octets talker_attribute talker_len received rx_calls
talker-Arrives talker_advertise info leaveall pe r stale =
    talker-walk talker_advertise info leaveall pe r stale
talker-Arrives talker_failed info leaveall pe r stale =
    talker-walk talker_failed info leaveall pe r stale

listener-Arrives :
    (id : List ℕ) (decl : ListenerEvent) (leaveall : Bool) (pe : ℕ)
    → Repacks pe
    → let fv = tabulate 8 0 id in
      Arrives
        (listener_attribute fv decl leaveall pe)
        (heard leaveall 3 (rx_listener fv (int_to_3pe pe 0 0) (decl_code decl)))
unfolding msg_len tabulate sent_octets listener_attribute received rx_calls
listener-Arrives id decl leaveall pe r stale = listener-walk id decl leaveall pe r stale

domain-Arrives :
    (info : List ℕ) (leaveall : Bool) (pe : ℕ)
    → Repacks pe
    → let fv = tabulate 4 0 info in
      Arrives
        (domain_attribute fv leaveall pe)
        (heard leaveall 4 (rx_domain fv (int_to_3pe pe 0 0)))
unfolding msg_len tabulate sent_octets domain_attribute received rx_calls
domain-Arrives info leaveall pe r stale = domain-walk info leaveall pe r stale

whole : (xs : List ℕ) (n : ℕ) → length xs ≡ n → tabulate n 0 xs ≡ xs
whole xs n h = subst (λ m. tabulate m 0 xs ≡ xs) h (tabulate_all xs)

module _ (leaveall : Bool) (sm : SmState) (pe : ℕ)
    (due : resolve_3pe sm.pending_tx sm.registrar ≡ some pe) where
  packs : Repacks pe
  packs = resolve_3pe-Repacks sm.pending_tx sm.registrar pe due

  tx_flush_talker-Arrives :
      (ty : TalkerType) (info : List ℕ)
      → length info ≡ talker_len ty
      → (a : Attribute) × (tx_flush_talker ty info leaveall sm ≡ some a)
        × Arrives a
            (heard leaveall (talker_code ty) (rx_talker (talker_code ty) info (int_to_3pe pe 0 0)))
  unfolding tx_flush_talker
  tx_flush_talker-Arrives ty info h = (
    talker_attribute ty info leaveall pe,
    rw (tx_flush_talker, due) refl,
    subst
        (λ fv.
          Arrives (talker_attribute ty fv leaveall pe)
            (heard leaveall (talker_code ty) (rx_talker (talker_code ty) fv (int_to_3pe pe 0 0))))
        (whole info (talker_len ty) h) (talker-Arrives ty info leaveall pe packs),
  )

  tx_flush_listener-Arrives :
      (id : List ℕ) (decl : ListenerEvent)
      → length id ≡ 8
      → (a : Attribute) × (tx_flush_listener id decl leaveall sm ≡ some a)
        × Arrives a
            (heard leaveall type_listener (rx_listener id (int_to_3pe pe 0 0) (decl_code decl)))
  unfolding tx_flush_listener
  tx_flush_listener-Arrives id decl h = (
    listener_attribute id decl leaveall pe,
    rw (tx_flush_listener, due) refl,
    subst
        (λ fv.
          Arrives (listener_attribute fv decl leaveall pe)
            (heard leaveall 3 (rx_listener fv (int_to_3pe pe 0 0) (decl_code decl))))
        (whole id 8 h) (listener-Arrives id decl leaveall pe packs),
  )

  tx_flush_domain-Arrives :
      (info : List ℕ)
      → length info ≡ 4
      → (a : Attribute) × (tx_flush_domain info leaveall sm ≡ some a)
        × Arrives a (heard leaveall type_domain (rx_domain info (int_to_3pe pe 0 0)))
  unfolding tx_flush_domain
  tx_flush_domain-Arrives info h = (
    domain_attribute info leaveall pe,
    rw (tx_flush_domain, due) refl,
    subst
        (λ fv.
          Arrives (domain_attribute fv leaveall pe)
            (heard leaveall 4 (rx_domain fv (int_to_3pe pe 0 0))))
        (whole info 4 h) (domain-Arrives info leaveall pe packs),
  )

  -- Whatever an entry sends at a flush, its peer's walk of the message calls: the LeaveAll of the
  -- type, if the message carries it, then the value with the same FirstValue, event and listener
  -- declaration, and nothing else. It holds for both talker types, listeners and domains, and for
  -- every rest of an older message in the peer's buffer, outside AVB Lite.
  pub flush-Arrives :
      (ty : TalkerType) (info id domain : List ℕ) (decl : ListenerEvent)
      → length info ≡ talker_len ty
      → length id ≡ 8
      → length domain ≡ 4
      → ((a : Attribute) × (tx_flush_talker ty info leaveall sm ≡ some a)
          × Arrives a (
              heard leaveall
                (talker_code ty)
                (rx_talker (talker_code ty) info (int_to_3pe pe 0 0))))
        × ((a : Attribute) × (tx_flush_listener id decl leaveall sm ≡ some a)
            × Arrives a (
                heard leaveall type_listener (rx_listener id (int_to_3pe pe 0 0) (decl_code decl))))
        × ((a : Attribute) × (tx_flush_domain domain leaveall sm ≡ some a)
            × Arrives a (heard leaveall type_domain (rx_domain domain (int_to_3pe pe 0 0))))
  flush-Arrives ty info id domain decl h i j = (
    tx_flush_talker-Arrives ty info h,
    tx_flush_listener-Arrives id decl i,
    tx_flush_domain-Arrives domain j,
  )
