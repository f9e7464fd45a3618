-- ===== src/Unsol/Sequence.antt =====
-- The sequence IDs that a controller sees in its notifications.
use esp_avb.Prelude.{
  ℕ, zero, suc, ◌≤◌, ◌≡◌, inl, inr, refl, sym, ◌∙◌, arith, Bool, true, false, ◌&&◌, List, [], ◌∷◌,
  ◌++◌, Option, none, some, if◌then◌else◌, ◌==◌, ltb, length, Bool-cases,
}
use esp_avb.Unsol.{
  Controller, Kind, Body, Frame, no_requester, is_requester, is_entry, count_seq, seq_of,
  next_seq_id, send_to, notify, max_msg_len,
}
use esp_avb.Unsol.Registry.{has, Unique, SameKey, thin_notify, Unique-Thinned}

-- The entry of a controller
unfoldable pub lookup : ℕ → ℕ → List Controller → Option Controller
lookup id mac [] = none
lookup id mac (e ∷ es) = if is_entry id mac e then some e else lookup id mac es

unfoldable pub is_for : ℕ → ℕ → Frame → Bool
is_for id mac f = f.entity_id == id && f.mac_addr == mac

-- The sequence IDs of the frames to a controller, in the order of the frames
unfoldable pub seqs_for : ℕ → ℕ → List Frame → List ℕ
seqs_for id mac [] = []
seqs_for id mac (f ∷ fs) =
    if is_for id mac f then f.seq_id ∷ seqs_for id mac fs else seqs_for id mac fs

-- `n` sequence IDs from `seq_id` on
unfoldable pub count_from : ℕ → ℕ → List ℕ
count_from seq_id zero = []
count_from seq_id (suc n) = seq_id ∷ count_from (next_seq_id seq_id) n

-- A notification: its body and the length of its frame
pub record Notice : Type 0 where
  pub body : Body
  pub msg_len : ℕ

-- Notifications of one kind sent to everyone, one after the other
unfoldable pub notify_all : Kind → List Notice → List Controller → List Controller × List Frame
notify_all kind [] cs = (cs, [])
notify_all kind (n ∷ ns) cs =
    let (cs1, sent) = notify n.body n.msg_len kind no_requester cs in
    let (cs2, later) = notify_all kind ns cs1 in (cs2, sent ++ later)

abbrev pub AllFit : List Notice → Type 0
AllFit [] = ◌≡◌ {A = ℕ} 0 0
AllFit (n ∷ ns) = (n.msg_len ≤ max_msg_len) × AllFit ns

seqs_for-append :
    (id mac : ℕ) (fs gs : List Frame)
    → seqs_for id mac (fs ++ gs) ≡ seqs_for id mac fs ++ seqs_for id mac gs
unfolding seqs_for
seqs_for-append id mac [] gs = refl
seqs_for-append id mac (f ∷ fs) gs = ground (arith, seqs_for-append id mac fs gs)

seqs_for-absent :
    (id mac : ℕ) (body : Body) (n : ℕ) (kind : Kind) (es : List Controller)
    → has id mac es ≡ false
    → seqs_for id mac (notify body n kind no_requester es).1 ≡ []
unfolding seqs_for notify has send_to is_requester is_for is_entry
seqs_for-absent id mac body n kind [] h = refl
seqs_for-absent id mac body n kind (e ∷ es) h =
    ground (arith, seqs_for-absent id mac body n kind es)

-- The frame of a notification to a controller
frame_to : Controller → Body → Kind → Frame
unfolding seq_of
frame_to e body kind = record {
  entity_id = e.entity_id;
  mac_addr = e.mac_addr;
  seq_id = seq_of kind e;
  kind = kind;
  body = body;
}

notify-cons :
    (body : Body) (n : ℕ) (kind : Kind) (e : Controller) (es : List Controller)
    → n ≤ max_msg_len
    → let rest = notify body n kind no_requester es in
      notify body n kind no_requester (e ∷ es)
      ≡ (count_seq kind e ∷ rest.0, frame_to e body kind ∷ rest.1)
unfolding notify send_to is_requester max_msg_len frame_to
notify-cons body n kind e es fit = let f : ltb 600 n ≡ false = ground arith in rw (notify, f) refl

count_seq-SameKey : (kind : Kind) (e : Controller) → SameKey e (count_seq kind e)
unfolding count_seq SameKey
count_seq-SameKey kind e = ground arith

head_found :
    (id mac : ℕ) (body : Body) (n : ℕ) (kind : Kind) (x : Controller) (es : List Controller)
    → is_entry id mac x ≡ true
    → has x.entity_id x.mac_addr es ≡ false
    → n ≤ max_msg_len
    → let out = notify body n kind no_requester (x ∷ es) in
      (seqs_for id mac out.1 ≡ seq_of kind x ∷ []) × (lookup id mac out.0 ≡ some (count_seq kind x))
unfolding seqs_for lookup is_for frame_to is_entry SameKey
head_found id mac body n kind x es t a fit =
    let p : x.entity_id ≡ id = ground arith in
    let q : x.mac_addr ≡ mac = ground arith in
    let none_later = seqs_for-absent id mac body n kind es (rw (p, q) at a) in
    let (p', q') = count_seq-SameKey kind x in
    rw (notify-cons body n kind x es fit) (ground (arith, none_later), ground arith)

head_passed :
    (id mac : ℕ) (body : Body) (n : ℕ) (kind : Kind) (x : Controller) (es : List Controller)
    → is_entry id mac x ≡ false
    → n ≤ max_msg_len
    → let out = notify body n kind no_requester (x ∷ es) in
      let rest = notify body n kind no_requester es in
      (seqs_for id mac out.1 ≡ seqs_for id mac rest.1)
      × (lookup id mac out.0 ≡ lookup id mac rest.0)
unfolding seqs_for lookup is_for frame_to is_entry SameKey
head_passed id mac body n kind x es f fit =
    let (p', q') = count_seq-SameKey kind x in
    rw (notify-cons body n kind x es fit) (ground arith, ground arith)

-- One notification: the controller gets its next sequence ID and its entry counts it.
notify-entry :
    (id mac : ℕ) (body : Body) (n : ℕ) (kind : Kind) (es : List Controller) (e : Controller)
    → Unique es
    → n ≤ max_msg_len
    → lookup id mac es ≡ some e
    → (seqs_for id mac (notify body n kind no_requester es).1 ≡ seq_of kind e ∷ [])
      × (lookup id mac (notify body n kind no_requester es).0 ≡ some (count_seq kind e))
unfolding lookup Unique
notify-entry id mac body n kind [] e u fit h = cc
notify-entry id mac body n kind (x ∷ es) e (a, u) fit h = elim (Bool-cases (is_entry id mac x)) [
  | inl t ↦
      let same : some x ≡ some e = rw t at h in
      let eq : x ≡ e = cc in rw (sym eq) (head_found id mac body n kind x es t a fit)
  | inr f ↦
      let (s, l) = notify-entry id mac body n kind es e u fit (rw f at h) in
      let (s', l') = head_passed id mac body n kind x es f fit in (s' ∙ s, l' ∙ l)
]

seq_of-count_seq :
    (kind : Kind) (e : Controller) → seq_of kind (count_seq kind e) ≡ next_seq_id (seq_of kind e)
unfolding seq_of count_seq
seq_of-count_seq kind e = ground arith

-- A registered controller gets every notification sent to all, with consecutive 16-bit sequence
-- IDs of their kind from the one its entry holds, when each frame fits the buffer and no two
-- entries are for one controller.
pub notify_all-seqs :
    (id mac : ℕ) (kind : Kind) (ns : List Notice) (cs : List Controller) (e : Controller)
    → Unique cs
    → AllFit ns
    → lookup id mac cs ≡ some e
    → seqs_for id mac (notify_all kind ns cs).1 ≡ count_from (seq_of kind e) (length ns)
unfolding notify_all count_from seqs_for
notify_all-seqs id mac kind [] cs e u fit h = refl
notify_all-seqs id mac kind (n ∷ ns) cs e u (fit, fits) h =
    let (s, l) = notify-entry id mac n.body n.msg_len kind cs e u fit h in
    let u' = Unique-Thinned (thin_notify n.body n.msg_len kind no_requester cs) u in
    let later = notify_all-seqs id mac kind ns _ (count_seq kind e) u' fits l in
    seqs_for-append id mac (notify n.body n.msg_len kind no_requester cs).1 _
    ∙ rw (s, later, seq_of-count_seq kind e) refl
