-- ===== src/Mdns.antt =====
-- mdnsd.py, the Machines it knows of: `absorb_response` and `prune`.
pub mod Own
pub mod Expiry
pub mod Roster
pub mod Answer
use pipe_os.Prelude.{
  ℕ, ◌+◌, ◌-◌, ◌*◌, Bool, true, false, not, ◌&&◌, ◌||◌, Option, none, some, List, [], ◌∷◌, ◌++◌,
  ltb, leb, ◌==◌, if◌then◌else◌, get_elem?, Text, text_eq, is_empty, codes, split,
}
use pipe_os.Prelude.Dict.{Dict, get, set, del}
use pipe_os.Wire.Name.{Bytes}
use pipe_os.Wire.Txt.{Pairs}
use pipe_os.Wire.Packet.{Rdata, address, target, service, pairs, raw, Record}

-- What `srv[3][3]` is: the target of the record, or a byte where its rdata stayed raw.
pub data Host : Type 0 where
  no_host : Host
  named : Text → Host
  octet : ℕ → Host

-- An entry of `state["peers"]`. The address is the rdata of an A record, raw when it was not four
-- bytes long, or the sender's.
pub record Peer : Type 0 where
  pub id : Text
  pub name : Text
  pub host : Host
  pub ip : Rdata
  pub claimed : Bool
  pub verdict : Text
  pub commit : Text
  pub built : Text
  pub model : Text
  pub mac : Text
  pub cl : Text
  pub k : Text
  pub h : Text
  pub port : ℕ
  pub last_seen : ℕ

abbrev pub service_type : Text
service_type = codes "_pipeos._tcp.local"

-- `kv.get(key, "")` of a dict of texts
unfoldable pub get_or_blank : Text → Pairs → Text
get_or_blank key [] = []
get_or_blank key ((j, v) ∷ kv) = if text_eq j key then v else get_or_blank key kv

-- `next((r for r in records if r[1] == rtype and r[0] == owner), None)`
unfoldable pub first_record : ℕ → Text → List Record → Option Record
first_record rtype owner [] = none
first_record rtype owner (r ∷ records) =
    if r.rtype == rtype && text_eq r.name owner then some r else first_record rtype owner records

-- `txt[3] if txt else {}`: the rdata of a TXT record is always decoded.
unfoldable pub kv_of : Option Record → Pairs
kv_of none = []
kv_of (some r) = elim r.rdata [
  | pairs kv ↦ kv
  | address b ↦ []
  | target t ↦ []
  | service p w port t ↦ []
  | raw b ↦ []
]

-- `srv[3][3]` and `srv[3][2]`, or `none` where the index is out of range
unfoldable pub host_of : Option Record → Option (Host × ℕ)
host_of none = some (no_host, 80)
host_of (some r) = elim r.rdata [
  | service p w port t ↦ some (named t, port)
  | raw b ↦ elim (get_elem? b 3) [
    | none ↦ none
    | some x ↦ elim (get_elem? b 2) [ none ↦ none | some y ↦ some (octet x, y) ]
  ]
  | pairs kv ↦ none
  | address b ↦ none
  | target t ↦ none
]

-- `a[3] if a else src_ip`
unfoldable pub ip_of : Host → Bytes → List Record → Rdata
unfolding first_record
ip_of (named t) src records = elim (first_record 1 t records) [
  | none ↦ address src
  | some r ↦ r.rdata
]
ip_of no_host src records = elim (first_record 1 [] records) [
  | none ↦ address src
  | some r ↦ r.rdata
]
ip_of (octet x) src records = address src

abbrev first_label : List Text → Text
first_label [] = []
first_label (l ∷ ls) = l

-- `kv.get("id") or inst.split(".")[0]`
unfoldable pub peer_id : Pairs → Text → Text
unfolding get_or_blank
peer_id kv inst =
    let id = get_or_blank (codes "id") kv in
    if is_empty id then first_label (split b'.' inst) else id

unfoldable pub peer_of : Text → Pairs → Host → Rdata → ℕ → ℕ → Peer
unfolding get_or_blank
peer_of id kv host ip port now = record {
  id = id;
  name = get_or_blank (codes "n") kv;
  host = host;
  ip = ip;
  claimed = text_eq (get_or_blank (codes "c") kv) (codes "1");
  verdict = get_or_blank (codes "v") kv;
  commit = get_or_blank (codes "i") kv;
  built = get_or_blank (codes "b") kv;
  model = get_or_blank (codes "m") kv;
  mac = get_or_blank (codes "mac") kv;
  cl = get_or_blank (codes "cl") kv;
  k = get_or_blank (codes "k") kv;
  h = get_or_blank (codes "h") kv;
  port = port;
  last_seen = now;
}

-- The loop over the instances: the peers, and whether it raised.
abbrev pub Peers : Type 0
Peers = Dict Peer

-- The body of the loop, for the PTR record of an instance `inst` with `ttl`; `none` is a raise.
unfoldable pub absorb_one : Text → Bytes → ℕ → List Record → ℕ → Text → Peers → Option Peers
unfolding first_record kv_of host_of ip_of peer_id peer_of get set del
absorb_one self src now records ttl inst peers =
    let srv = first_record 33 inst records in
    let kv = kv_of (first_record 16 inst records) in
    let id = peer_id kv inst in
    if text_eq id self
    then some peers
    else if ttl == 0
    then some (del id peers)
    else elim (host_of srv) [
      | none ↦ none
      | some (host, port) ↦
          some (set id (peer_of id kv host (ip_of host src records) port now) peers)
    ]

-- The instances in `records`, by and by: a raise keeps what was absorbed before it.
unfoldable pub absorb_from : Text → Bytes → ℕ → List Record → List Record → Peers → Peers
unfolding absorb_one
absorb_from self src now records [] peers = peers
absorb_from self src now records (r ∷ rest) peers = elim r.rdata [
  | target inst ↦
      if r.rtype == 12 && text_eq r.name service_type
      then elim (absorb_one self src now records r.ttl inst peers) [
        | none ↦ peers
        | some peers' ↦ absorb_from self src now records rest peers'
      ]
      else absorb_from self src now records rest peers
  | pairs kv ↦ absorb_from self src now records rest peers
  | address b ↦ absorb_from self src now records rest peers
  | service p w port t ↦ absorb_from self src now records rest peers
  | raw b ↦ absorb_from self src now records rest peers
]

-- `absorb_response`, its effect on `state["peers"]`
unfoldable pub absorb_response : Text → Bytes → ℕ → List Record → Peers → Peers
unfolding absorb_from
absorb_response self src now records peers = absorb_from self src now records records peers

-- `prune`, with `now` and `expire` in thousandths of a second
unfoldable pub prune : ℕ → ℕ → Peers → Peers
prune expire now [] = []
prune expire now ((id, e) ∷ peers) =
    let rest = prune expire now peers in
    if ltb expire (now - e.last_seen * 1000) then rest else (id, e) ∷ rest
