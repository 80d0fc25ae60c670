-- ===== src/Mdns/Roster.antt =====
-- mdnsd.py, `read_roster` of a well-formed file and `roster_upsert`: the roster never forgets.
use pipe_os.Prelude.{
  ℕ, ◌+◌, ◌≡◌, refl, ap, Bool, true, false, not, ◌&&◌, ◌||◌, inl, inr, Option, none, some, [], ◌∷◌,
  leb, ◌==◌, if◌then◌else◌, Bool-cases, Text, text_eq, text_eq_iff, text_eq_self, is_empty, arith,
}
use pipe_os.Wire.Packet.{Rdata, address, raw}
use pipe_os.Prelude.Dict.{Dict, get, set, get-set}
use pipe_os.Mdns.{Host, no_host, named, octet, Peer, Peers}

-- A row of the roster: the keys of `ROSTER_KEYS`
pub record Row : Type 0 where
  pub id : Text
  pub name : Text
  pub host : Host
  pub ip : Rdata
  pub claimed : Bool
  pub mac : Text
  pub model : Text
  pub last_seen : ℕ

abbrev pub Rows : Type 0
Rows = Dict Row

host_eq : Host → Host → Bool
host_eq no_host no_host = true
host_eq (named s) (named t) = text_eq s t
host_eq (octet x) (octet y) = x == y
host_eq _ _ = false

-- Addresses alone: no other rdata is one.
rdata_eq : Rdata → Rdata → Bool
rdata_eq (address a) (address b) = text_eq a b
rdata_eq (raw a) (raw b) = text_eq a b
rdata_eq _ _ = false

abbrev bool_same : Bool → Bool → Bool
bool_same true b = b
bool_same false b = not b

-- All keys but `last_seen` have the same value.
unfoldable pub same_row : Row → Row → Bool
unfolding host_eq rdata_eq
same_row a b =
    text_eq a.id b.id
    && text_eq a.name b.name
    && host_eq a.host b.host
    && rdata_eq a.ip b.ip
    && bool_same a.claimed b.claimed
    && text_eq a.mac b.mac
    && text_eq a.model b.model

abbrev mac_of : Option Row → Text
mac_of none = []
mac_of (some old) = old.mac

-- The row of a peer; a sighting without a MAC keeps the old row's.
unfoldable pub row_of : Peer → Option Row → Row
row_of e old = record {
  id = e.id;
  name = e.name;
  host = e.host;
  ip = e.ip;
  claimed = e.claimed;
  mac = if is_empty e.mac then mac_of old else e.mac;
  model = e.model;
  last_seen = e.last_seen;
}

-- The row differs, or is a minute newer.
unfoldable pub worth_writing : Option Row → Row → Bool
unfolding same_row
worth_writing none row = true
worth_writing (some old) row = not (same_row old row) || leb (old.last_seen + 60) row.last_seen

-- The loop over the peers: the rows, and whether one changed.
unfoldable pub fold_peers : Peers → Rows → Bool → Rows × Bool
unfolding row_of worth_writing set get
fold_peers [] ros changed = (ros, changed)
fold_peers ((id, e) ∷ peers) ros changed =
    let old = get id ros in
    let row = row_of e old in
    if worth_writing old row
    then fold_peers peers (set id row ros) true
    else fold_peers peers ros changed

-- `json.dump` raises on bytes.
abbrev is_json : Rdata → Bool
is_json (raw b) = false
is_json d = true

unfoldable pub all_json : Rows → Bool
all_json [] = true
all_json ((id, row) ∷ ros) = is_json row.ip && all_json ros

-- `roster_upsert`: the rows in the file behind it, where writing raises no `OSError`. What `json`
-- cannot write leaves the file as it was.
unfoldable pub roster_upsert : Peers → Rows → Rows
unfolding fold_peers all_json
roster_upsert peers ros =
    let (rows, changed) = fold_peers peers ros false in
    if changed && all_json rows then rows else ros

-- The MAC that the roster has for a Machine, and whether it has the Machine.
unfoldable pub known_mac : Text → Rows → Text
known_mac id ros = elim (get id ros) [ none ↦ [] | some row ↦ row.mac ]

unfoldable pub is_known : Text → Rows → Bool
is_known id ros = elim (get id ros) [ none ↦ false | some row ↦ true ]

set-known_mac :
    (id j : Text) (e : Peer) (ros : Rows)
    → is_empty (known_mac id ros) ≡ false
    → is_empty (known_mac id (set j (row_of e (get j ros)) ros)) ≡ false
unfolding known_mac row_of
set-known_mac id j e ros h = elim (Bool-cases (text_eq j id)) [
  | inl same ↦
      let s = (text_eq_iff j id).0 same in
      rw s (ground (arith, h, get-set id id (row_of e (get id ros)) ros, text_eq_self id))
  | inr other ↦ ground (arith, h, get-set id j (row_of e (get j ros)) ros)
]

fold_peers-known_mac :
    (id : Text) (peers : Peers) (ros : Rows) (changed : Bool)
    → is_empty (known_mac id ros) ≡ false
    → is_empty (known_mac id (fold_peers peers ros changed).0) ≡ false
unfolding fold_peers
fold_peers-known_mac id [] ros changed h = h
fold_peers-known_mac id ((j, e) ∷ peers) ros changed h = ground (
  arith,
  fold_peers-known_mac id peers (set j (row_of e (get j ros)) ros) true
      (set-known_mac id j e ros h),
  fold_peers-known_mac id peers ros changed h,
)

set-is_known :
    (id j : Text) (row : Row) (ros : Rows)
    → is_known id (set j row ros) ≡ (text_eq j id || is_known id ros)
unfolding is_known
set-is_known id j row ros = ground (arith, get-set id j row ros)

already_known :
    (id j : Text) (row : Row) (ros : Rows)
    → worth_writing (get j ros) row ≡ false
    → text_eq j id ≡ true
    → is_known id ros ≡ true
unfolding is_known worth_writing
already_known id j row ros h same = rw (← (text_eq_iff j id).0 same) (ground (arith, h))

fold_peers-changed : (peers : Peers) (ros : Rows) → (fold_peers peers ros true).1 ≡ true
unfolding fold_peers
fold_peers-changed [] ros = refl
fold_peers-changed ((j, e) ∷ peers) ros = ground (
  arith,
  fold_peers-changed peers (set j (row_of e (get j ros)) ros),
  fold_peers-changed peers ros,
)

-- The Machine is a live peer.
unfoldable pub is_live : Text → Peers → Bool
is_live id peers = elim (get id peers) [ none ↦ false | some e ↦ true ]

fold_peers-is_known :
    (id : Text) (peers : Peers) (ros : Rows) (changed : Bool)
    → is_known id (fold_peers peers ros changed).0 ≡ (is_known id ros || is_live id peers)
unfolding fold_peers is_live get
fold_peers-is_known id [] ros changed = ground arith
fold_peers-is_known id ((j, e) ∷ peers) ros changed =
    let row = row_of e (get j ros) in
    ground (
      arith,
      fold_peers-is_known id peers (set j row ros) true,
      fold_peers-is_known id peers ros changed,
      set-is_known id j row ros,
      already_known id j row ros,
    )

fold_peers-unchanged :
    (peers : Peers) (ros : Rows) (changed : Bool)
    → (fold_peers peers ros changed).1 ≡ false
    → (fold_peers peers ros changed).0 ≡ ros
unfolding fold_peers
fold_peers-unchanged [] ros changed h = refl
fold_peers-unchanged ((j, e) ∷ peers) ros changed h = ground (
  arith,
  h,
  fold_peers-changed peers (set j (row_of e (get j ros)) ros),
  fold_peers-unchanged peers ros changed,
)

-- A MAC that the roster has for a Machine is not lost, whatever is seen of it later.
pub roster_upsert-known_mac :
    (id : Text) (peers : Peers) (ros : Rows)
    → is_empty (known_mac id ros) ≡ false
    → is_empty (known_mac id (roster_upsert peers ros)) ≡ false
unfolding roster_upsert
roster_upsert-known_mac id peers ros h =
    ground (arith, h, fold_peers-known_mac id peers ros false h)

-- The roster has afterwards the Machines it had, also those that are gone, and the live peers unless
-- `json` cannot write the rows, and no other.
pub roster_upsert-is_known :
    (id : Text) (peers : Peers) (ros : Rows)
    → is_known id (roster_upsert peers ros)
      ≡ (is_known id ros || (is_live id peers && all_json (fold_peers peers ros false).0))
unfolding roster_upsert
roster_upsert-is_known id peers ros = elim (Bool-cases (fold_peers peers ros false).1) [
  | inl changed ↦ ground (arith, changed, fold_peers-is_known id peers ros false)
  | inr quiet ↦
      let same = ap (λ t. is_known id t) (fold_peers-unchanged peers ros false quiet) in
      ground (arith, quiet, same, fold_peers-is_known id peers ros false)
]
